-- ===== src/Decompress/Ljpeg/Codes/Longer.antt =====
-- The loop over the bits of a code of more than 8 bits.
use native.Mathlib.Nat.{pow-suc, div-div-eq-div-mul, div-le_self}
use libopenraw.Prelude.{
  ℕ, zero, suc, ◌+◌, ◌*◌, ◌/◌, ◌%◌, ◌^◌, ◌≤◌, ◌<◌, ◌≡◌, refl, sym, ap, ◌∙◌, subst, Bool, List, ◌++◌,
  length, length-append, take, drop, Result, ok, ◌>>=◌, bit_or, bit_or_fields, shl, arith,
}
use libopenraw.BitSource.{low_bits, value_of}
use libopenraw.BitSource.Fields.{length-low_bits}
use libopenraw.Decompress.WordReader.Stream.{take-low_bits, drop-low_bits, value_of-low_bits_mod}
use libopenraw.Decompress.BitReader.{LJpegBitReader, get_bits}
use libopenraw.Decompress.BitReader.Stream.{IsBefore, HasBits}
use libopenraw.Decompress.BitReader.Stream.Steps.{get_bits-value_of}
use libopenraw.Decompress.Ljpeg.Huffman.{HuffmanTable, longer_code}
use libopenraw.Decompress.Ljpeg.Codes.{IsLong}

-- The code grows by its next bit.
next_bit : (k c : ℕ) → c < 2 ^ 16 → bit_or (shl 32 (c / 2 ^ suc k) 1) (c / 2 ^ k % 2) ≡ c / 2 ^ k
next_bit k c h =
    let q : ℕ = c / 2 ^ k in
    let halves : c / 2 ^ suc k ≡ q / 2 =
      ap (λ p. c / p) (pow-suc 2 k ∙ omega arith) ∙ sym (div-div-eq-div-mul c (2 ^ k) 2) in
    let under : q ≤ c = div-le_self c (2 ^ k) in
    let cut : shl 32 (q / 2) 1 ≡ q / 2 * 2 ^ 1 = omega (arith, h, under) in
    ap (λ p. bit_or (shl 32 p 1) (q % 2)) halves
    ∙ ap (λ p. bit_or p (q % 2)) cut
    ∙ bit_or_fields 1 (q / 2) (q % 2) (omega arith)
    ∙ omega arith

module _ (m : ℕ) (rest : List ℕ) where
  -- One bit of a field, with the bits behind it.
  read_one :
      (k c : ℕ) (bits : List Bool) (r : LJpegBitReader)
      → 1 ≤ m
      → IsBefore m rest (low_bits (suc k) c ++ bits) r
      → HasBits m rest (c / 2 ^ k % 2) (low_bits k c ++ bits) (get_bits 1 r)
  read_one k c bits r marker before =
      let up : suc k ≡ 1 + k = omega arith in
      let stream : List Bool = low_bits (suc k) c ++ bits in
      let value : value_of (take 1 stream) ≡ c / 2 ^ k % 2 =
        ap (λ n. value_of (take 1 (low_bits n c ++ bits))) up
        ∙ ap value_of (take-low_bits 1 k c bits)
        ∙ value_of-low_bits_mod 1 (c / 2 ^ k) in
      let behind : drop 1 stream ≡ low_bits k c ++ bits =
        ap (λ n. drop 1 (low_bits n c ++ bits)) up ∙ drop-low_bits 1 k c bits in
      let inside : 1 ≤ length stream =
        omega (arith, length-append (low_bits (suc k) c) bits, length-low_bits (suc k) c) in
      subst (λ v. HasBits m rest v (low_bits k c ++ bits) (get_bits 1 r)) value
        (subst (λ b. HasBits m rest (value_of (take 1 stream)) b (get_bits 1 r)) behind
          (get_bits-value_of m rest 1 stream r marker (omega arith) (omega arith) inside before))

  -- The code was read, with its length.
  pub record IsLonger (c l : ℕ) (bits : List Bool) (step : Result (ℕ × ℕ × LJpegBitReader))
      : Type 0 where
    pub after : LJpegBitReader
    pub returns : step ≡ ok (c, l, after)
    pub before : IsBefore m rest bits after

  -- The loop from length `8 + j` on, with `k` bits of the code to come.
  pub longer_code-IsLonger :
      (t : HuffmanTable) (symbol d k j fuel c : ℕ) (bits : List Bool) (r : LJpegBitReader)
      → 1 ≤ m
      → k < fuel
      → k + j ≡ d
      → c < 2 ^ 16
      → IsLong t symbol d c
      → IsBefore m rest (low_bits k c ++ bits) r
      → IsLonger c (8 + d) bits (longer_code fuel t (c / 2 ^ k) (8 + j) r)
  unfolding longer_code
  longer_code-IsLonger t symbol d k j zero c bits r marker room sum small coded before =
      absurd (omega arith)
  longer_code-IsLonger t symbol d zero j (suc fuel) c bits r marker room sum small coded before =
      let here : j ≡ d = omega (arith, sum) in
      let whole : c / 2 ^ 0 ≡ c = omega arith in
      let (bound, at, low) = coded.stops in
      subst (λ i. IsLonger c (8 + d) bits (longer_code (suc fuel) t (c / 2 ^ 0) (8 + i) r))
        (sym here)
        (subst (λ q. IsLonger c (8 + d) bits (longer_code (suc fuel) t q (8 + d) r)) (sym whole)
          (rw (at, ◌>>=◌, low) (record { after = r; returns = refl; before = before })))
  longer_code-IsLonger t symbol d (suc k) j (suc fuel) c bits r marker room sum small coded before =
      let (bound, at, high) = coded.passes k j sum in
      let one = read_one k c bits r marker before in
      let up : 8 + j + 1 ≡ 8 + (j + 1) = omega arith in
      (rw (at, ◌>>=◌, high, one.returns, next_bit k c small, up)
        (longer_code-IsLonger t symbol d k (j + 1) fuel c bits one.after marker
          (omega (arith, room)) (omega (arith, sum)) small coded one.before))
