-- ===== src/Decompress/BitReader/Examples.antt =====
-- A stream with a stuffed byte and a marker, and the theorem at a concrete input.
use libopenraw.Prelude.{◌≡◌, refl, [], ◌∷◌, drop, ok, arith, index}
use libopenraw.Decompress.BitReader.{
  LJpegBitReader, get_bits, peek, consume, shown, fill_bit_buffer, fill_rounds, next_byte, load,
  read_u8,
}
use libopenraw.BitSource.{bytes_bits}
use libopenraw.Decompress.BitReader.Stream.{IsBefore, HasBits}
use libopenraw.Decompress.BitReader.Stream.Steps.{get_bits-value_of}

abbrev stuffed : LJpegBitReader
stuffed = record {
  buffer = 0xff ∷ 0x00 ∷ 0x12 ∷ 0x34 ∷ 0xff ∷ 0xd9 ∷ 0 ∷ 0 ∷ [];
  pos = 0;
  bits_left = 0;
  bits = 0;
}

-- The zero behind 0xff is dropped, and loading stops before the marker.
twelve_bits :
    get_bits 12 stuffed ≡ ok (0xff1, record stuffed { pos = 4; bits_left = 12; bits = 0xff1234 })
unfolding get_bits peek consume shown fill_bit_buffer fill_rounds next_byte load read_u8 index
twelve_bits = refl

stuffed-IsBefore : IsBefore 0xd9 (0 ∷ 0 ∷ []) (bytes_bits (0xff ∷ 0x12 ∷ 0x34 ∷ [])) stuffed
stuffed-IsBefore = record {
  ws = 0xff ∷ 0x12 ∷ 0x34 ∷ [];
  at = record { left = refl; words = omega arith };
  cap = omega arith;
  padding = 0;
  held = refl;
}

get_bits-value_of_example :
    HasBits 0xd9
      (0 ∷ 0 ∷ [])
      0xff1
      (drop 12 (bytes_bits (0xff ∷ 0x12 ∷ 0x34 ∷ [])))
      (get_bits 12 stuffed)
get_bits-value_of_example =
    get_bits-value_of 0xd9 (0 ∷ 0 ∷ []) 12 (bytes_bits (0xff ∷ 0x12 ∷ 0x34 ∷ [])) stuffed
      (omega arith) (omega arith) (omega arith) (omega arith) stuffed-IsBefore
