-- ===== src/Decompress/Blocks.antt =====
-- src/decompress.rs: `unpack_bento16`, and `unpack_from_reader`, which reads a picture block by block,
-- a block for each row. The reader is std's: `read_exact` takes bytes from the front, or fails.
pub mod Loop
pub mod Rows
pub mod Packed
mod Examples
use libopenraw.Prelude.{
  ℕ, zero, suc, ◌+◌, ◌*◌, ◌/◌, ◌^◌, min, Bool, true, false, ◌||◌, List, [], ◌∷◌, ◌++◌, ◌==◌, ltb,
  leb, if◌then◌else◌, length, take, drop, Result, ok, err, panic, invalid_param, invalid_format,
  io_error, ◌>>=◌, ◌>>◌, reject_if, require,
}
use libopenraw.Container.{Endian, unset, big, little}
use libopenraw.Tiff.{Compression, uncompressed, nikon_pack, pentax_pack, panasonic_raw1, olympus}
use libopenraw.BitSource.{BitReaderCrate}
use libopenraw.Decompress.Unpack.{unpack_be12to16, unpack_le12to16}

module _ (c : BitReaderCrate) where
  unfoldable pub bento_loop : ℕ → ℕ → c.State → List ℕ → ℕ → Result (ℕ × List ℕ)
  bento_loop n zero reader out_data written = ok (written, out_data)
  bento_loop n (suc left) reader out_data written = do
    (t, reader') ← c.read 16 n reader
    bento_loop n left reader' (out_data ++ t ∷ []) (written + 1)

  unfoldable pub unpack_bento16 : List ℕ → ℕ → ℕ → List ℕ → Result (ℕ × List ℕ)
  unpack_bento16 input n out_len out_data = do
    reject_if (ltb 16 n) invalid_param
    bento_loop n out_len (c.new input) out_data 0

-- A product or sum of `u32`.
unfoldable pub as_u32 : ℕ → Result ℕ
as_u32 x = do require (ltb x (2 ^ 32)); ok x

unfoldable pub is_padded : Compression → Bool
is_padded nikon_pack = true
is_padded olympus = true
is_padded panasonic_raw1 = true
is_padded _ = false

-- The bytes of a block, by the bits of a component.
unfoldable pub block_size : ℕ → ℕ → Compression → Result ℕ
block_size width bpc compression =
    if bpc == 10
    then as_u32 (width / 4 * 5)
    else (if bpc == 12
        then (if is_padded compression
            then as_u32 (width / 2 * 3 + width / 10)
            else as_u32 (width / 2 * 3))
        else (if bpc == 14 then as_u32 (width / 4 * 7) else err invalid_format))

unfoldable pub unpack_by_endian : Endian → Compression → List ℕ → List ℕ → Result (ℕ × List ℕ)
unpack_by_endian little compression block out_data = unpack_le12to16 block out_data compression
unpack_by_endian big compression block out_data = unpack_be12to16 block out_data compression
unpack_by_endian unset compression block out_data = panic

unfoldable pub unpack_12 : Compression → Endian → List ℕ → List ℕ → Result (ℕ × List ℕ)
unpack_12 nikon_pack endian block out_data = unpack_be12to16 block out_data nikon_pack
unpack_12 pentax_pack endian block out_data = unpack_be12to16 block out_data pentax_pack
unpack_12 uncompressed endian block out_data = unpack_by_endian endian uncompressed block out_data
unpack_12 olympus endian block out_data = unpack_le12to16 block out_data olympus
unpack_12 panasonic_raw1 endian block out_data = unpack_le12to16 block out_data panasonic_raw1
unpack_12 _ endian block out_data = panic

unfoldable pub read_exact : ℕ → List ℕ → Result (List ℕ × List ℕ)
read_exact n bytes = if leb n (length bytes) then ok (take n bytes, drop n bytes) else err io_error

module _ (c : BitReaderCrate) (width bpc : ℕ) (compression : Compression) (endian : Endian) where
  unfoldable pub unpack_block : List ℕ → List ℕ → Result (ℕ × List ℕ)
  unpack_block block out_data =
      if (bpc == 10) || (bpc == 14)
      then unpack_bento16 c block bpc width out_data
      else (if bpc == 12 then unpack_12 compression endian block out_data else panic)

  -- `while fetched < byte_len`. `late` is what the loop would give when its rounds run out.
  unfoldable pub unpack_blocks : Result (List ℕ) → ℕ → ℕ → ℕ → ℕ → List ℕ → List ℕ → Result (List ℕ)
  unpack_blocks late zero size byte_len fetched reader out_data = late
  unpack_blocks late (suc left) size byte_len fetched reader out_data =
      elim (ltb fetched byte_len) [
        | true ↦ do
          (block, reader') ← read_exact size reader
          (written, out_data') ← unpack_block block out_data
          unpack_blocks late left size byte_len (fetched + size) reader' out_data'
        | false ↦ ok out_data
      ]

  -- `byte_len` bytes are wanted, and the rounds are one more.
  unfoldable pub unpack_from_reader : List ℕ → ℕ → ℕ → Result (List ℕ)
  unpack_from_reader reader height byte_len = do
    size ← block_size width bpc compression
    let wanted : ℕ = min byte_len (size * height)
    unpack_blocks panic (wanted + 1) size wanted 0 reader []
