-- ===== src/Panasonic/Raw1/Bits.antt =====
-- `ReverseBits` reads the 16 bytes as one little-endian number of 128 bits, from its top bits down.
use native.Mathlib.Nat.{div-div-eq-div-mul, pow-suc, pow-succ', zero-div}
use native.Mathlib.Numerals.{towards_suc, add-one}
use libopenraw.Prelude.{
  ℕ, zero, suc, ◌+◌, ◌-◌, ◌*◌, ◌/◌, ◌%◌, ◌^◌, ◌≤◌, ◌<◌, ◌≡◌, ◌⊎◌, inl, inr, refl, sym, ap, ◌∙◌,
  List, [], ◌∷◌, All, length, get_or, drop, ok, index_lem, le→leb, bit_and_mask, bit_or_fields, shl,
  arith, low_mask, bit_or,
}
use libopenraw.Panasonic.Raw1.{get}

abbrev pub IsByte : ℕ → Type 0
IsByte b = b < 256

-- The number that the bytes are, the first byte lowest.
abbrev pub le_value : List ℕ → ℕ
le_value [] = 0
le_value (b ∷ bs) = b + 256 * le_value bs

-- The widths that the decoder reads.
abbrev pub IsWidth : ℕ → Type 0
IsWidth count = (count ≡ 2) ⊎ ((count ≡ 4) ⊎ (count ≡ 8))

le_value-drop : (bs : List ℕ) (j : ℕ) → All IsByte bs → le_value (drop j bs) ≡ le_value bs / 256 ^ j
le_value-drop bs zero h = omega arith
le_value-drop [] (suc j) h = sym (zero-div (256 ^ suc j))
le_value-drop (b ∷ bs) (suc j) h =
    le_value-drop bs j h.1
    ∙ ap (λ n. n / 256 ^ j) (omega (arith, h.0))
    ∙ div-div-eq-div-mul (b + 256 * le_value bs) 256 (256 ^ j)
    ∙ ap (λ n. (b + 256 * le_value bs) / n) (sym (pow-succ' 256 j))

two_pow_bytes : (j off : ℕ) → 2 ^ (8 * j + off) ≡ 256 ^ j * 2 ^ off
two_pow_bytes zero off = let e : 8 * 0 + off ≡ off = omega arith in ap (λ n. 2 ^ n) e ∙ omega arith
two_pow_bytes (suc j) off =
    ap (λ n. 2 ^ n) regroup
    ∙ eight (8 * j + off)
    ∙ omega (
      arith,
      ap (λ (t : ℕ). 256 * t) (two_pow_bytes j off),
      ap (λ (t : ℕ). t * 2 ^ off) (pow-suc 256 j),
    )
  where
    regroup : 8 * suc j + off ≡ 8 * j + off + 8
    regroup = omega arith

    eight : (n : ℕ) → 2 ^ (n + 8) ≡ 256 * 2 ^ n
    eight n = simp towards_suc (omega arith)

-- Two neighbouring bytes are the 16 bits of the number at the lower one.
two_bytes :
    (bs : List ℕ) (j : ℕ)
    → All IsByte bs
    → get_or bs (suc j) 0 * 256 + get_or bs j 0 ≡ le_value (drop j bs) % 65536
two_bytes [] zero h = refl
two_bytes [] (suc j) h = refl
two_bytes (b ∷ []) zero h = omega (arith, h.0)
two_bytes (b ∷ c ∷ bs) zero h = omega (arith, h.0, h.1.0)
two_bytes (b ∷ bs) (suc j) h = two_bytes bs j h.1

-- A field of at most 8 bits lies within 16 bits from its byte on.
low_byte : (x off : ℕ) → off < 8 → x % 65536 / 2 ^ off % 256 ≡ x / 2 ^ off % 256
low_byte x zero h = omega arith
low_byte x (suc zero) h = omega arith
low_byte x (suc (suc zero)) h = omega arith
low_byte x (suc (suc (suc zero))) h = omega arith
low_byte x (suc (suc (suc (suc zero)))) h = omega arith
low_byte x (suc (suc (suc (suc (suc zero))))) h = omega arith
low_byte x (suc (suc (suc (suc (suc (suc zero)))))) h = omega arith
low_byte x (suc (suc (suc (suc (suc (suc (suc zero))))))) h = omega arith
low_byte x (suc (suc (suc (suc (suc (suc (suc (suc n)))))))) h = absurd (omega arith)

narrow : (z count : ℕ) → IsWidth count → z % 256 % 2 ^ count ≡ z % 2 ^ count
narrow z count (inl e) = rw e (omega arith)
narrow z count (inr (inl e)) = rw e (omega arith)
narrow z count (inr (inr e)) = rw e (omega arith)

mask_lem : (count : ℕ) → IsWidth count → (65535 - shl 16 65535 count) % 2 ^ 8 ≡ low_mask count
mask_lem count (inl e) = rw e refl
mask_lem count (inr (inl e)) = rw e refl
mask_lem count (inr (inr e)) = rw e refl

byte_or_zero : (bits : List ℕ) (i : ℕ) → All IsByte bits → get_or bits i 0 < 256
byte_or_zero [] i h = omega arith
byte_or_zero (b ∷ bs) zero h = h.0
byte_or_zero (b ∷ bs) (suc i) h = byte_or_zero bs i h.1

word_lem :
    (bits : List ℕ) (j : ℕ)
    → All IsByte bits
    → bit_or (shl 16 (get_or bits (j + 1) 0) 8) (get_or bits j 0) ≡ le_value (drop j bits) % 65536
word_lem bits j bytes =
    let hi = byte_or_zero bits (suc j) bytes in
    let lo = byte_or_zero bits j bytes in
    let wide : get_or bits (suc j) 0 * 256 % 65536 ≡ get_or bits (suc j) 0 * 256 =
      omega (arith, hi) in
    rw (add-one, wide)
      (bit_or_fields 8 (get_or bits (suc j) 0) (get_or bits j 0) lo ∙ two_bytes bits j bytes)

-- The field of `count` bits (2, 4 or 8) that ends `bit_index` bits before the top of the group: no
-- read inside the 128 bits panics.
pub get_lem :
    (bits : List ℕ) (bit_index count : ℕ)
    → length bits ≡ 16
    → All IsByte bits
    → IsWidth count
    → bit_index + count ≤ 128
    → get bits bit_index count ≡ ok (le_value bits / 2 ^ (128 - bit_index - count) % 2 ^ count)
unfolding get
get_lem bits bit_index count len bytes w fits =
    let first = 128 - bit_index - count in
    let j = first / 8 in
    let off = first % 8 in
    let some_bits : 1 ≤ count = ground arith in
    let inside : j < length bits = omega (arith, len) in
    let x = le_value (drop j bits) in
    let parts : first ≡ 8 * j + off = omega arith in
    rw (le→leb (bit_index + count) 128 fits, index_lem bits j 0 inside, mask_lem count w)
      (ap ok (
        bit_and_mask count _
        ∙ ap (λ v. v / 2 ^ off % 256 % 2 ^ count) (word_lem bits j bytes)
        ∙ ap (λ v. v % 2 ^ count) (low_byte x off (omega arith))
        ∙ narrow (x / 2 ^ off) count w
        ∙ ap (λ v. v / 2 ^ off % 2 ^ count) (le_value-drop bits j bytes)
        ∙ ap (λ v. v % 2 ^ count) (div-div-eq-div-mul (le_value bits) (256 ^ j) (2 ^ off))
        ∙ ap (λ n. le_value bits / n % 2 ^ count)
            (sym (ap (λ n. 2 ^ n) parts ∙ two_pow_bytes j off))))
