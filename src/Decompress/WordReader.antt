-- ===== src/Decompress/WordReader.antt =====
-- src/decompress/bit_reader.rs: `BitReaderBe32` and `BitReaderLe32`, which load words of 32 bits, and
-- `unpack_14to16` of src/decompress.rs, which reads from one.
pub mod Stream
pub mod Loads
pub mod Samples
mod Examples
use libopenraw.Prelude.{
  ℕ, zero, suc, ◌+◌, ◌-◌, ◌*◌, ◌/◌, ◌%◌, ◌^◌, min, Bool, true, false, List, [], ◌∷◌, ◌++◌, leb, ltb,
  if◌then◌else◌, length, take, drop, Result, ok, err, panic, io_error, decompression, ◌>>=◌, ◌>>◌,
  reject_if, require, bit_and, bit_or, shl, shr, low_mask,
}
use libopenraw.Io.{ByteOrder, big_endian, little_endian, ByteOrderCrate}

-- What is left of the bytes, and the loaded bits: 8 bits of count, 64 of bits.
pub record WordReader : Type 0 where
  pub bytes : List ℕ
  pub bits_left : ℕ
  pub bits : ℕ

unfoldable pub new_word_reader : List ℕ → WordReader
new_word_reader bytes = record { bytes = bytes; bits_left = 0; bits = 0 }

unfoldable pub word_shown : ℕ → WordReader → Result (ℕ × WordReader)
word_shown nbits r = do
  require (leb nbits r.bits_left)
  require (ltb (r.bits_left - nbits) 64)
  require (ltb nbits 32)
  ok (bit_and (shr r.bits (r.bits_left - nbits)) (low_mask nbits) % 2 ^ 16, r)

module _ (c : ByteOrderCrate) (o : ByteOrder) where
  -- `read_u32` of the reader: 4 bytes, or an error that leaves nothing to read.
  unfoldable pub load_word : WordReader → Result WordReader
  load_word r =
      if leb 4 (length r.bytes)
      then (do
        b ← c.read_u32 o (take 4 r.bytes)
        require (ltb (r.bits_left + 32) (2 ^ 8))
        ok (record {
          bytes = drop 4 r.bytes;
          bits_left = r.bits_left + 32;
          bits = bit_or (shl 64 r.bits 32) b;
        }))
      else err io_error

  unfoldable pub word_peek : ℕ → WordReader → Result (ℕ × WordReader)
  word_peek nbits r = do
    r' ← if ltb r.bits_left nbits then load_word r else ok r
    word_shown nbits r'

-- The big-endian reader clears what it gave; the other one keeps it above the count.
unfoldable pub word_consume : ByteOrder → ℕ → WordReader → Result WordReader
word_consume big_endian nbits r = do
  require (leb nbits r.bits_left)
  require (ltb (r.bits_left - nbits) 64)
  ok (record r {
    bits_left = r.bits_left - nbits;
    bits = bit_and r.bits (low_mask (r.bits_left - nbits));
  })
word_consume little_endian nbits r =
    ok (record r { bits_left = r.bits_left - min nbits r.bits_left })

module _ (c : ByteOrderCrate) (o : ByteOrder) where
  -- What `get_bits` gives when a peek fails: the bits are consumed all the same.
  unfoldable pub after_peek : ℕ → WordReader → Result (ℕ × WordReader) → Result (ℕ × WordReader)
  after_peek nbits r panic = panic
  after_peek nbits r (err code) = word_consume o nbits r >>= λ _. err code
  after_peek nbits r (ok p) = do r' ← word_consume o nbits p.1; ok (p.0, r')

  -- `BitReader::get_bits`
  unfoldable pub word_get_bits : ℕ → WordReader → Result (ℕ × WordReader)
  word_get_bits nbits r = do
    reject_if (leb 17 nbits) decompression
    after_peek nbits r (word_peek c o nbits r)

  unfoldable pub fourteen_loop : ℕ → WordReader → List ℕ → ℕ → Result (ℕ × List ℕ)
  fourteen_loop zero r out_data written = ok (written, out_data)
  fourteen_loop (suc left) r out_data written = do
    (t, r') ← word_get_bits 14 r
    fourteen_loop left r' (out_data ++ t ∷ []) (written + 1)

  unfoldable pub unpack_14to16 : WordReader → ℕ → List ℕ → Result (ℕ × List ℕ)
  unpack_14to16 r out_len out_data = fourteen_loop out_len r out_data 0
