-- ===== src/Decompress/BitReader.antt =====
-- src/decompress/bit_reader.rs: the bit reader of lossless JPEG, with its stuffed bytes. The reader
-- that the decoder uses never returns an error from `peek`: at the end of its buffer it panics.
pub mod Masks
pub mod Filling
pub mod Stream
mod Examples
use libopenraw.Prelude.{
  ℕ, zero, suc, ◌+◌, ◌-◌, true, false, Option, none, some, List, [], ◌∷◌, ◌==◌, leb, ltb,
  if◌then◌else◌, length, drop, Result, ok, decompression, ◌>>=◌, ◌>>◌, reject_if, require, index,
  bit_and, bit_or, shl, shr,
}

abbrev pub bits_per_long : ℕ
bits_per_long = 32

abbrev pub min_get_bits : ℕ
min_get_bits = bits_per_long - 7

abbrev pub bmask : List ℕ
bmask =
    0x0000 ∷ 0x0001 ∷ 0x0003 ∷ 0x0007 ∷ 0x000F ∷ 0x001F ∷ 0x003F ∷ 0x007F ∷ 0x00FF ∷ 0x01FF ∷ 0x03FF
    ∷ 0x07FF ∷ 0x0FFF ∷ 0x1FFF ∷ 0x3FFF ∷ 0x7FFF ∷ 0xFFFF ∷ []

pub record LJpegBitReader : Type 0 where
  pub buffer : List ℕ
  pub pos : ℕ
  pub bits_left : ℕ
  pub bits : ℕ

-- `LJpegBitReader::new`
unfoldable pub new_reader : List ℕ → LJpegBitReader
new_reader buffer = record { buffer = buffer; pos = 0; bits_left = 0; bits = 0 }

unfoldable pub read_u8 : LJpegBitReader → Result (ℕ × LJpegBitReader)
read_u8 r = do b ← index r.buffer r.pos; ok (b, record r { pos = r.pos + 1 })

-- `BigEndian::read_u16` of the byteorder crate is a parameter; slicing at `pos` panics past the end.
unfoldable pub read_u16 : (List ℕ → Result ℕ) → LJpegBitReader → Result (ℕ × LJpegBitReader)
read_u16 be_u16 r = do
  require (leb r.pos (length r.buffer))
  b ← be_u16 (drop r.pos r.buffer)
  ok (b, record r { pos = r.pos + 2 })

unfoldable pub skip : ℕ → LJpegBitReader → LJpegBitReader
skip seek r = record r { pos = r.pos + seek }

unfoldable pub discard : LJpegBitReader → LJpegBitReader
discard r = record r { bits_left = 0 }

-- The byte to load next, with the reader behind it: none where the loop breaks before a marker.
unfoldable pub next_byte : ℕ → LJpegBitReader → Result (Option ℕ × LJpegBitReader)
next_byte nbits r = do
  (c, r1) ← read_u8 r
  (if c == 0xff
      then (do
        (c2, r2) ← read_u8 r1
        (if c2 == 0
            then ok (some c, r2)
            else (if ltb nbits r2.bits_left
                then ok (none, record r2 { pos = r2.pos - 2 })
                else ok (some 0, record r2 { pos = r2.pos - 2 }))))
      else ok (some c, r1))

unfoldable pub load : ℕ → LJpegBitReader → LJpegBitReader
load c r = record r { bits = bit_or (shl 32 r.bits 8) c; bits_left = r.bits_left + 8 }

-- A round of the loop behind its byte, with `next` for the rounds that follow.
abbrev pub fill_on :
    Option ℕ × LJpegBitReader → (LJpegBitReader → Result LJpegBitReader) → Result LJpegBitReader
fill_on (none, r) next = ok r
fill_on (some c, r) next = next (load c r)

-- The loop of `fill_bit_buffer`. A round loads 8 bits, so 4 rounds pass 24 bits.
unfoldable pub fill_rounds : ℕ → ℕ → LJpegBitReader → Result LJpegBitReader
fill_rounds zero nbits r = ok r
fill_rounds (suc left) nbits r =
    if ltb r.bits_left min_get_bits
    then (do p ← next_byte nbits r; fill_on p (fill_rounds left nbits))
    else ok r

unfoldable pub fill_bit_buffer : ℕ → LJpegBitReader → Result LJpegBitReader
fill_bit_buffer nbits r = fill_rounds 4 nbits r

-- `bits_left - nbits` and a shift of a `u32` by 32 or more panic.
unfoldable pub shown : ℕ → LJpegBitReader → Result ℕ
shown nbits r = do
  require (leb nbits r.bits_left)
  require (ltb (r.bits_left - nbits) 32)
  mask ← index bmask nbits
  ok (bit_and (shr r.bits (r.bits_left - nbits)) mask)

unfoldable pub peek : ℕ → LJpegBitReader → Result (ℕ × LJpegBitReader)
peek nbits r = do
  r' ← (if ltb r.bits_left nbits then fill_bit_buffer nbits r else ok r)
  v ← shown nbits r'
  ok (v, r')

unfoldable pub consume : ℕ → LJpegBitReader → Result LJpegBitReader
consume nbits r = do
  require (leb nbits r.bits_left)
  ok (record r { bits_left = r.bits_left - nbits })

-- `BitReader::get_bits`
unfoldable pub get_bits : ℕ → LJpegBitReader → Result (ℕ × LJpegBitReader)
get_bits nbits r = do
  reject_if (leb 17 nbits) decompression
  (value, r1) ← peek nbits r
  r2 ← consume nbits r1
  ok (value, r2)
