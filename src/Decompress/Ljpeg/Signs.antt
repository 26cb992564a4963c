-- ===== src/Decompress/Ljpeg/Signs.antt =====
-- Section F.1.2.1 of the JPEG standard sends a difference as its size and that many bits; `extend`
-- is its inverse.
use libopenraw.Prelude.{ℕ, zero, suc, ◌+◌, ◌-◌, ◌^◌, ◌≤◌, ◌<◌, ◌≡◌, ok, ℤ, pos, negsuc, ◌-ℤ◌, arith}
use libopenraw.Decompress.Ljpeg.Huffman.{extend_sign}
use native.Mathlib.Nat.{pow-suc}

-- The bits that an encoder sends for a difference of `s` bits.
abbrev pub sent_bits : ℤ → ℕ → ℕ
sent_bits (pos n) s = n
sent_bits (negsuc n) s = 2 ^ s - 2 - n

-- The magnitude has exactly `s` bits.
abbrev pub IsOfSize : ℤ → ℕ → Type 0
IsOfSize (pos n) s = (2 ^ (s - 1) ≤ n) × (n < 2 ^ s)
IsOfSize (negsuc n) s = (2 ^ (s - 1) ≤ n + 1) × (n + 1 < 2 ^ s)

-- For a size from 1 to 16 and a difference of that size, `extend` gives back the difference from
-- the bits that an encoder sends for it.
pub extend_sign-sent_bits :
    (d : ℤ) (s : ℕ) → 1 ≤ s → s ≤ 16 → IsOfSize d s → extend_sign (sent_bits d s) s ≡ ok d
unfolding extend_sign ◌-ℤ◌
extend_sign-sent_bits (pos n) s low high size = ground (arith, size.0, size.1)
extend_sign-sent_bits (negsuc n) (suc s) low high size = ground (arith, pow-suc 2 s, size.0, size.1)
extend_sign-sent_bits (negsuc n) zero low high size = absurd (omega arith)
