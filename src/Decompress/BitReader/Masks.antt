-- ===== src/Decompress/BitReader/Masks.antt =====
-- The table of masks, and the field that `peek` shows with it.
use libopenraw.Prelude.{
  ℕ, zero, suc, ◌-◌, ◌/◌, ◌%◌, ◌^◌, ◌≤◌, ◌≡◌, refl, sym, ap, ◌∙◌, subst, inl, inr, Bool, true,
  false, Bool-cases, ◌==◌, ==_iff, ◌&&◌, leb, lt→ltb, le→leb, get_or, ok, index, index_lem,
  bit_and_mask, low_mask, arith, leb→le,
}
use libopenraw.Decompress.BitReader.{LJpegBitReader, shown, bmask}

-- Over the entries of the table of masks.
holds_to : ℕ → (ℕ → Bool) → Bool
holds_to zero p = p 0
holds_to (suc n) p = holds_to n p && p (suc n)

and_true : (a b : Bool) → (a && b) ≡ true → (a ≡ true) × (b ≡ true)
and_true true b e = (refl, e)
and_true false b e = absurd cc

holds_to_lem : (n : ℕ) (p : ℕ → Bool) (i : ℕ) → holds_to n p ≡ true → i ≤ n → p i ≡ true
unfolding holds_to
holds_to_lem zero p i e h = let z : i ≡ 0 = omega (arith, h) in subst (λ k. p k ≡ true) (sym z) e
holds_to_lem (suc n) p i e h =
    let (front, last) = and_true (holds_to n p) (p (suc n)) e in
    elim (Bool-cases (leb i n)) [
      | inl q ↦ holds_to_lem n p i front (leb→le i n q)
      | inr q ↦ let z : i ≡ suc n = ground (arith, h, q) in subst (λ k. p k ≡ true) (sym z) last
    ]

masks : holds_to 16 (λ n. get_or bmask n 0 == low_mask n) ≡ true
unfolding holds_to
masks = refl

pub bmask_lem : (n : ℕ) → n ≤ 16 → index bmask n ≡ ok (low_mask n)
bmask_lem n h =
    index_lem bmask n 0 (omega (arith, h))
    ∙ ap ok ((==_iff (get_or bmask n 0) (low_mask n)).0 (holds_to_lem 16 _ n masks h))

pub shown_lem :
    (nbits : ℕ) (r : LJpegBitReader)
    → 1 ≤ nbits
    → nbits ≤ 16
    → nbits ≤ r.bits_left
    → r.bits_left ≤ 32
    → shown nbits r ≡ ok (r.bits / 2 ^ (r.bits_left - nbits) % 2 ^ nbits)
unfolding shown
shown_lem nbits r some_bits few enough cap =
    rw
      (
        le→leb nbits r.bits_left enough,
        lt→ltb (r.bits_left - nbits) 32 (omega (arith, some_bits, enough, cap)),
        bmask_lem nbits few,
      )
      (ap ok (bit_and_mask nbits (r.bits / 2 ^ (r.bits_left - nbits))))
