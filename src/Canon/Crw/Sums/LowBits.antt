-- ===== src/Canon/Crw/Sums/LowBits.antt =====
-- What the code does with the low bits of a block.
use libopenraw.Prelude.{
  ℕ, zero, suc, ◌+◌, ◌*◌, ◌/◌, ◌%◌, ◌^◌, ◌≡◌, refl, sym, ap, ◌∙◌, true, false, List, [], ◌∷◌, ◌++◌,
  append_assoc, length, length-append, drop, ok, ltb, lt→ltb, ge→ltb, index-drop, drop-length,
  update-append, bit_and_mask, shr, arith,
}
use libopenraw.Io.{View}
use libopenraw.Canon.Crw.Pump.Stuffed.{view_u8_lem}
use libopenraw.Canon.Crw.Sums.{merged, merge_low}

-- The first sample, and 0 where there is none.
abbrev pub first_of : List ℕ → ℕ
first_of [] = 0
first_of (x ∷ xs) = x

-- The four samples that a byte has bits for, each with the sample behind it: `a` to `d` are those of
-- the block.
abbrev pub with_low : List ℕ → List ℕ → List ℕ
with_low [] cs = []
with_low (a ∷ []) cs = a ∷ []
with_low (a ∷ b ∷ []) cs = a ∷ b ∷ []
with_low (a ∷ b ∷ c ∷ []) cs = a ∷ b ∷ c ∷ []
with_low (a ∷ b ∷ c ∷ d ∷ xs) [] = a ∷ b ∷ c ∷ d ∷ xs
with_low (a ∷ b ∷ c ∷ d ∷ xs) (byte ∷ cs) =
    (b * 4 % 2 ^ 16 + byte % 4)
    ∷ (c * 4 % 2 ^ 16 + byte / 4 % 4)
    ∷ (d * 4 % 2 ^ 16 + byte / 16 % 4)
    ∷ (first_of xs * 4 % 2 ^ 16 + byte / 64 % 4)
    ∷ with_low xs cs

moved : (done xs : List ℕ) (v : ℕ) → done ++ v ∷ xs ≡ done ++ v ∷ [] ++ xs
moved done xs v = sym (append_assoc done (v ∷ []) xs)

-- One sample becomes the one behind it, with two bits of the byte.
merged_lem :
    (done xs : List ℕ) (x i c r : ℕ)
    → i ≡ length done
    → i + suc (length xs) ≡ 64
    → merged (done ++ x ∷ xs) i c r
      ≡ ok (done ++ (first_of xs * 4 % 2 ^ 16 + c / 2 ^ (r * 2) % 4) ∷ [] ++ xs)
unfolding merged
merged_lem done [] x i c r here full =
    let last : ltb i 63 ≡ false = ge→ltb i 63 (omega (arith, full)) in
    rw
      (
        last,
        bit_and_mask 2 (shr c (r * 2)),
        update-append done [] x (0 * 4 % 2 ^ 16 + c / 2 ^ (r * 2) % 4) i here,
      )
      (ap ok (moved done [] (0 * 4 % 2 ^ 16 + c / 2 ^ (r * 2) % 4)))
merged_lem done (y ∷ xs) x i c r here full =
    let inner : ltb i 63 ≡ true = lt→ltb i 63 (omega (arith, full)) in
    let at : drop (i + 1) (done ++ x ∷ y ∷ xs) ≡ y ∷ xs =
      ap (drop (i + 1)) (sym (append_assoc done (x ∷ []) (y ∷ xs)))
      ∙ drop-length (done ++ x ∷ []) (y ∷ xs) (i + 1)
          (omega (arith, here, length-append done (x ∷ []))) in
    rw
      (
        inner,
        (index-drop (done ++ x ∷ y ∷ xs) (i + 1) at).0,
        bit_and_mask 2 (shr c (r * 2)),
        update-append done (y ∷ xs) x (y * 4 % 2 ^ 16 + c / 2 ^ (r * 2) % 4) i here,
      )
      (ap ok (moved done (y ∷ xs) (y * 4 % 2 ^ 16 + c / 2 ^ (r * 2) % 4)))

four :
    (done xs : List ℕ) (a b c d : ℕ)
    → done ++ a ∷ [] ++ b ∷ [] ++ c ∷ [] ++ d ∷ [] ++ xs ≡ done ++ a ∷ b ∷ c ∷ d ∷ xs
four done xs a b c d =
    append_assoc (done ++ a ∷ [] ++ b ∷ [] ++ c ∷ []) (d ∷ []) xs
    ∙ append_assoc (done ++ a ∷ [] ++ b ∷ []) (c ∷ []) (d ∷ xs)
    ∙ append_assoc (done ++ a ∷ []) (b ∷ []) (c ∷ d ∷ xs)
    ∙ append_assoc done (a ∷ []) (b ∷ c ∷ d ∷ xs)

one_more : (done : List ℕ) (v i : ℕ) → i ≡ length done → i + 1 ≡ length (done ++ v ∷ [])
one_more done v i e = omega (arith, e, length-append done (v ∷ []))

-- The loops over the 16 bytes, from any of them on: the low two bits of sample `k` are those of the
-- file, and the others are sample `k + 1` of the block, 0 for the last one, where sample `k` would be
-- expected.
pub merge_low-with_low :
    (left i : ℕ) (done xs cs rest : List ℕ) (view : View)
    → length cs ≡ left
    → length xs ≡ 4 * left
    → i ≡ length done
    → i + length xs ≡ 64
    → drop view.pos view.bytes ≡ cs ++ rest
    → merge_low left i (done ++ xs) view
      ≡ ok (done ++ with_low xs cs, record view { pos = view.pos + left })
unfolding merge_low
merge_low-with_low zero i done [] cs rest view bytes fours here full at =
    let there : view.pos + 0 ≡ view.pos = omega arith in rw there refl
merge_low-with_low zero i done (x ∷ xs) cs rest view bytes fours here full at =
    absurd (omega (arith, fours))
merge_low-with_low (suc left) i done xs [] rest view bytes fours here full at =
    absurd (omega (arith, bytes))
merge_low-with_low (suc left) i done [] (byte ∷ cs) rest view bytes fours here full at =
    absurd (omega (arith, fours))
merge_low-with_low (suc left) i done (a ∷ []) (byte ∷ cs) rest view bytes fours here full at =
    absurd (omega (arith, fours))
merge_low-with_low (suc left) i done (a ∷ b ∷ []) (byte ∷ cs) rest view bytes fours here full at =
    absurd (omega (arith, fours))
merge_low-with_low (suc left) i done (a ∷ b ∷ c ∷ []) (byte ∷ cs) rest view bytes fours here full
      at =
    absurd (omega (arith, fours))
merge_low-with_low (suc left) i done (a ∷ b ∷ c ∷ d ∷ xs) (byte ∷ cs) rest view bytes fours here
      full at =
    let one = view_u8_lem view byte (cs ++ rest) at in
    let va : ℕ = b * 4 % 2 ^ 16 + byte / 2 ^ (0 * 2) % 4 in
    let vb : ℕ = c * 4 % 2 ^ 16 + byte / 2 ^ (1 * 2) % 4 in
    let vc : ℕ = d * 4 % 2 ^ 16 + byte / 2 ^ (2 * 2) % 4 in
    let vd : ℕ = first_of xs * 4 % 2 ^ 16 + byte / 2 ^ (3 * 2) % 4 in
    let d1 : List ℕ = done ++ va ∷ [] in
    let d2 : List ℕ = d1 ++ vb ∷ [] in
    let d3 : List ℕ = d2 ++ vc ∷ [] in
    let d4 : List ℕ = d3 ++ vd ∷ [] in
    let h1 = one_more done va i here in
    let h2 : i + 2 ≡ length d2 = omega (arith, h1, one_more d1 vb (i + 1) h1) in
    let h3 : i + 3 ≡ length d3 = omega (arith, h2, one_more d2 vc (i + 2) h2) in
    let h4 : i + 4 ≡ length d4 = omega (arith, h3, one_more d3 vd (i + 3) h3) in
    let there : view.pos + 1 + left ≡ view.pos + suc left = omega arith in
    let whole : byte / 2 ^ (0 * 2) ≡ byte = omega arith in
    rw
      (
        one.0,
        merged_lem done (b ∷ c ∷ d ∷ xs) a i byte 0 here (omega (arith, full)),
        merged_lem d1 (c ∷ d ∷ xs) b (i + 1) byte 1 h1 (omega (arith, full)),
        merged_lem d2 (d ∷ xs) c (i + 2) byte 2 h2 (omega (arith, full)),
        merged_lem d3 xs d (i + 3) byte 3 h3 (omega (arith, full)),
      )
      (merge_low-with_low left (i + 4) d4 xs cs rest (record view { pos = view.pos + 1 })
          (omega (arith, bytes)) (omega (arith, fours)) h4 (omega (arith, full)) one.1
        ∙ rw (four done (with_low xs cs) va vb vc vd, there, whole) refl)
