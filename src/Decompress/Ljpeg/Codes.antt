-- ===== src/Decompress/Ljpeg/Codes.antt =====
-- Decoding a code with the tables that `fix` derives, and the difference that follows it.
pub mod Longer
pub mod Decoded
use native.Mathlib.Nat.{
  one-le-pow, pow-suc, pow-le-pow_right, div-div-eq-div-mul, div-le_self, div-lt_iff_lt-mul,
}
use libopenraw.Prelude.{
  ℕ, zero, suc, ◌+◌, ◌-◌, ◌*◌, ◌/◌, ◌%◌, ◌^◌, ◌≤◌, ◌<◌, ◌≡◌, refl, sym, ap, ◌∙◌, subst, Bool, true,
  false, List, ◌++◌, append_assoc, ◌==◌, ge→ltb, length, length-append, take, drop, take-length,
  drop-length, Result, ok, ◌>>=◌, index, bit_or, bit_or_fields, pow_add, shl, ℤ, pos, negsuc, ◌+ℤ◌,
  ◌-ℤ◌, ltb_ℤ, arith,
}
use libopenraw.BitSource.{low_bits, bytes_bits, value_of}
use libopenraw.BitSource.Fields.{length-low_bits, front_field, value_of-low_bits}
use libopenraw.Decompress.WordReader.Stream.{take-low_bits, drop-low_bits, value_of-low_bits_mod}
use libopenraw.Decompress.BitReader.{LJpegBitReader, get_bits}
use libopenraw.Decompress.BitReader.Stream.{zeros, IsBefore, HasBits}
use libopenraw.Decompress.BitReader.Stream.Steps.{
  peek-IsPeeked, consume-IsBefore, get_bits-value_of,
}
use libopenraw.Decompress.Ljpeg.Huffman.{
  HuffmanTable, index_signed, longer_code, huff_decode, decode_difference,
}
use libopenraw.Decompress.Ljpeg.Signs.{sent_bits, IsOfSize, extend_sign-sent_bits}

-- A code of at most 8 bits: the lookups of all bytes that begin with it.
pub record IsShort (t : HuffmanTable) (symbol l c : ℕ) : Type 0 where
  pub some_bits : 1 ≤ l
  pub few : l ≤ 8
  pub under : c < 2 ^ l
  pub size : (v : ℕ) → v < 2 ^ (8 - l) → index t.numbits (c * 2 ^ (8 - l) + v) ≡ ok l
  pub found : (v : ℕ) → v < 2 ^ (8 - l) → index t.value (c * 2 ^ (8 - l) + v) ≡ ok symbol

-- A code of 8 and `d` more bits: its first byte has no lookup, it passes the bounds of the shorter
-- lengths, and its place among the codes of its length gives the symbol.
pub record IsLong (t : HuffmanTable) (symbol d c : ℕ) : Type 0 where
  pub some_more : 1 ≤ d
  pub few : d ≤ 8
  pub no_lookup : index t.numbits (c / 2 ^ d) ≡ ok 0
  pub passes :
      (k j : ℕ)
      → suc k + j ≡ d
      → (bound : ℤ) × (index t.maxcode (8 + j) ≡ ok bound)
        × (ltb_ℤ bound (pos (c / 2 ^ suc k)) ≡ true)
  pub stops : (bound : ℤ) × (index t.maxcode (8 + d) ≡ ok bound) × (ltb_ℤ bound (pos c) ≡ false)
  pub place : ℕ
  pub first : ℕ
  pub place_of : index t.valptr (8 + d) ≡ ok place
  pub first_of : index t.mincode (8 + d) ≡ ok (pos first)
  pub behind : first ≤ c
  pub found : index t.huffval (place + (c - first)) ≡ ok symbol

-- The bits `code` stand for a symbol.
pub data Codes (t : HuffmanTable) (symbol : ℕ) : List Bool → Type 0 where
  short :
      {code : List Bool} (l c : ℕ)
      → IsShort t symbol l c
      → code ≡ low_bits l c
      → Codes t symbol code
  long :
      {code : List Bool} (d c : ℕ)
      → c < 2 ^ (8 + d)
      → IsLong t symbol d c
      → code ≡ low_bits (8 + d) c
      → Codes t symbol code
