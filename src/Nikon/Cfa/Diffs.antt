-- ===== src/Nikon/Cfa/Diffs.antt =====
-- A difference is read back from its code and its bits.
use native.Mathlib.Nat.{pow-suc, one-le-pow, pow-le-pow_right}
use libopenraw.Prelude.{
  ℕ, zero, suc, ◌+◌, ◌-◌, ◌*◌, ◌/◌, ◌%◌, ◌^◌, ◌≤◌, ◌<◌, ◌≡◌, ◌⊎◌, inl, inr, refl, ap, ◌∙◌, subst,
  Bool, Bool-cases, List, ◌++◌, ◌==◌, append_assoc, some, ok, le→leb, ltb, lt→ltb, ge→ltb,
  if◌then◌else◌, div_unique, ltb→lt, ltb→ge, bit_and, bit_and_mask, shl, shr, ℤ, pos, negsuc, ◌-ℤ◌,
  arith,
}
use libopenraw.BitSource.{BitReaderCrate, IsBitReader, low_bits}
use libopenraw.BitSource.Fields.{HasRead, read-HasRead}
use libopenraw.Decompress.Ljpeg.Signs.{sent_bits, IsOfSize}
use libopenraw.Nikon.Huffman.{HuffmanNode}
use libopenraw.Nikon.Cfa.{diff_of, next_diff}
use libopenraw.Nikon.Cfa.Codes.{path, decode-path}

-- The differences that can be sent with `len` bits: 0 with none, and otherwise those of that size.
abbrev pub IsSent : ℤ → ℕ → Type 0
IsSent d len = ((len ≡ 0) × (d ≡ pos 0)) ⊎ IsOfSize d len

pub sent_bits-lt : (d : ℤ) (len : ℕ) → IsSent d len → sent_bits d len < 2 ^ len
sent_bits-lt d len (inl e) = rw (e.0, e.1) (omega arith)
sent_bits-lt (pos n) len (inr e) = e.1
sent_bits-lt (negsuc n) len (inr e) = omega (arith, e.0, e.1, one-le-pow len 2)

-- The top bit of a field of `suc n` bits.
pub top_bit : (n x : ℕ) → x < 2 ^ suc n → (x / 2 ^ n % 2 == 0) ≡ ltb x (2 ^ n)
top_bit n x h = elim (Bool-cases (ltb x (2 ^ n))) [
  | inl e ↦
      let none_left : 0 * 2 ^ n + x ≡ x = omega arith in
      let q : x / 2 ^ n ≡ 0 =
        subst (λ y. y / 2 ^ n ≡ 0) none_left (div_unique 0 (2 ^ n) x (ltb→lt x (2 ^ n) e)) in
      rw (e, q) refl
  | inr e ↦
      let high = ltb→ge x (2 ^ n) e in
      let r : x - 2 ^ n < 2 ^ n = omega (arith, h, pow-suc 2 n, high) in
      let sum : 1 * 2 ^ n + (x - 2 ^ n) ≡ x = omega (arith, high) in
      let q : x / 2 ^ n ≡ 1 = subst (λ y. y / 2 ^ n ≡ 1) sum (div_unique 1 (2 ^ n) (x - 2 ^ n) r) in
      rw (e, q) refl
]

doubled : (x : ℕ) → x < 32768 → shl 32 (shl 32 x 1 + 1) 0 / 2 ≡ x
doubled x h = omega (arith, h)

few_bits : (n x : ℕ) → x < 2 ^ n → n ≤ 15 → x < 32768
few_bits n x h few =
    let up : 2 ^ n ≤ 2 ^ 15 = pow-le-pow_right (omega arith) few in omega (arith, h, up)

diff_core :
    (n x : ℕ)
    → x < 2 ^ suc n
    → suc n ≤ 15
    → diff_of (suc n) 0 x ≡ (if ltb x (2 ^ n) then pos x -ℤ pos (2 ^ suc n - 1) else pos x)
unfolding diff_of
diff_core n x h few =
    let less : suc n - 1 ≡ n = omega arith in
    rw (lt→ltb 0 (suc n) (omega arith), doubled x (few_bits (suc n) x h few), less, top_bit n x h)
      refl

diff_of_lem : (d : ℤ) (len : ℕ) → len ≤ 15 → IsSent d len → diff_of len 0 (sent_bits d len) ≡ d
diff_of_lem d zero few (inl e) = rw (e.1) (unfold diff_of in refl)
diff_of_lem d (suc n) few (inl e) = absurd (omega (arith, e.0))
diff_of_lem (pos m) zero few (inr e) = absurd (omega (arith, e.0, e.1))
diff_of_lem (negsuc m) zero few (inr e) = absurd (omega (arith, e.0, e.1))
diff_of_lem (pos m) (suc n) few (inr e) =
    let less : suc n - 1 ≡ n = omega arith in
    let low : 2 ^ n ≤ m = rw less at e.0 in diff_core n m e.1 few ∙ (rw (ge→ltb m (2 ^ n) low) refl)
diff_of_lem (negsuc m) (suc n) few (inr e) =
    let less : suc n - 1 ≡ n = omega arith in
    let low : 2 ^ n ≤ m + 1 = rw less at e.0 in
    let x : ℕ = 2 ^ suc n - 2 - m in
    let under : x < 2 ^ n = omega (arith, low, e.1, pow-suc 2 n) in
    diff_core n x (omega (arith, under, pow-suc 2 n)) few
    ∙ (rw (lt→ltb x (2 ^ n) under) (back x (2 ^ suc n) m refl (omega (arith, e.1))))
  where
    back : (x p m : ℕ) → x ≡ p - 2 - m → m + 2 ≤ p → pos x -ℤ pos (p - 1) ≡ negsuc m
    back x p m e h = unfold ◌-ℤ◌ in ground arith

-- The bits of a difference that a book's code announces.
abbrev pub diff_bits : List Bool → ℤ → ℕ → List Bool
diff_bits code d len = code ++ low_bits len (sent_bits d len)

token_len : (len : ℕ) → len ≤ 15 → (bit_and len 15 ≡ len) × (shr len 4 ≡ 0)
token_len len few = (omega (arith, bit_and_mask 4 len), omega (arith, few))

module _ (c : BitReaderCrate) (laws : IsBitReader c) (table : List HuffmanNode) where
  -- With a reader that does what the crate documents: a difference of `len` bits, from 0 to 15, is
  -- read back from the code that the tree holds for `len` and the bits that are sent for it.
  pub next_diff-diff_bits :
      (s : c.State) (code rest : List Bool) (d : ℤ) (len : ℕ)
      → len ≤ 15
      → IsSent d len
      → path table 0 code ≡ some len
      → laws.bits s ≡ diff_bits code d len ++ rest
      → HasRead c laws d rest (next_diff c table s)
  unfolding next_diff
  next_diff-diff_bits s code rest d len few sent p e =
      let field = low_bits len (sent_bits d len) in
      let first =
        decode-path c laws table s code (field ++ rest) len p (e ∙ append_assoc code field rest) in
      let (whole, none_shifted) = token_len len few in
      let field_read =
        read-HasRead c laws 32 len (sent_bits d len) first.after rest (omega (arith, few))
          (sent_bits-lt d len sent) first.left in
      let all : len - 0 ≡ len = omega arith in
      rw (first.returns, whole, none_shifted, le→leb 0 len (omega arith), all, field_read.returns)
        (record {
          after = field_read.after;
          returns = ap (λ v. ok (v, field_read.after)) (diff_of_lem d len few sent);
          left = field_read.left;
        })
