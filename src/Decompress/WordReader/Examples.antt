-- ===== src/Decompress/WordReader/Examples.antt =====
-- Three samples of 14 bits in two words.
use libopenraw.Prelude.{ℕ, ◌≡◌, refl, List, [], ◌∷◌, take, drop, replicate, false, ok, panic, arith}
use libopenraw.Io.{big_endian, little_endian}
use libopenraw.Io.ByteReader.{byte_reader, byte_reader-IsByteOrder}
use libopenraw.BitSource.{value_of}
use libopenraw.Decompress.WordReader.{WordReader, word_get_bits, unpack_14to16}
use libopenraw.Decompress.WordReader.Loads.{pending, IsAt, HasBits}
use libopenraw.Decompress.WordReader.Samples.{
  word_get_bits-HasBits, unpack_14to16-row_bits, word_get_bits_end,
}

abbrev two_words : List ℕ
two_words = 262176 ∷ 12582912 ∷ []

abbrev start : WordReader
start = record { bytes = 0x20 ∷ 0 ∷ 4 ∷ 0 ∷ 0 ∷ 0 ∷ 0xc0 ∷ 0 ∷ 7 ∷ []; bits_left = 0; bits = 0 }

start-IsAt : IsAt little_endian (7 ∷ []) start two_words
start-IsAt = record { left = refl; words = (omega arith, (omega arith, tt)); few = omega arith }

word_get_bits-HasBits_example :
    HasBits byte_reader byte_reader-IsByteOrder little_endian
      (7 ∷ [])
      (value_of (take 14 (pending start two_words)))
      (drop 14 (pending start two_words))
      (word_get_bits byte_reader little_endian 14 start)
word_get_bits-HasBits_example =
    word_get_bits-HasBits byte_reader byte_reader-IsByteOrder little_endian (7 ∷ []) 14 start
      two_words (omega arith) start-IsAt (omega arith)

unpack_14to16-row_bits_example :
    unpack_14to16 byte_reader little_endian start 3 (9 ∷ []) ≡ ok (3, 9 ∷ 1 ∷ 2 ∷ 3 ∷ [])
unpack_14to16-row_bits_example =
    unpack_14to16-row_bits byte_reader byte_reader-IsByteOrder little_endian (7 ∷ [])
      (1 ∷ 2 ∷ 3 ∷ []) start two_words (9 ∷ []) (replicate 22 false)
      (omega arith, (omega arith, (omega arith, tt))) start-IsAt refl

word_get_bits_end_example :
    word_get_bits byte_reader big_endian 14 (record { bytes = 1 ∷ 2 ∷ []; bits_left = 4; bits = 5 })
    ≡ panic
word_get_bits_end_example =
    word_get_bits_end byte_reader big_endian 14
      (record { bytes = 1 ∷ 2 ∷ []; bits_left = 4; bits = 5 }) (omega arith) (omega arith)
      (omega arith)
