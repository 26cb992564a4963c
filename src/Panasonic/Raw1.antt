-- ===== src/Panasonic/Raw1.antt =====
-- src/panasonic/decompress.rs: 14 pixels from each group of 16 bytes, read bit by bit from the end.
pub mod Bits
pub mod Fields
pub mod Pixels
pub mod Blocks
mod Examples
use libopenraw.Prelude.{
  ℕ, zero, suc, ◌+◌, ◌-◌, ◌*◌, ◌/◌, ◌%◌, ◌^◌, Bool, true, false, not, ◌&&◌, ◌||◌, List, [], ◌∷◌,
  ◌++◌, ◌==◌, leb, ltb, if◌then◌else◌, length, get_or, set, take, drop, replicate, Result, ok, err,
  panic, unexpected_eof, ◌>>=◌, ◌>>◌, index, update, require, bit_and, bit_or, shl, shr,
}

-- `ReverseBits::get`, with `get_internal`: the field of `count` bits that ends `bit_index` bits
-- before the end of the group. The subtraction panics on a field that is not in the group.
unfoldable pub get : List ℕ → ℕ → ℕ → Result ℕ
get bits bit_index count = do
  require (leb (bit_index + count) 128)
  let first = 128 - bit_index - count
  let byte_index = first / 8
  low ← index bits byte_index
  let word = bit_or (shl 16 (get_or bits (byte_index + 1) 0) 8) low
  let bit_offset = first % 8
  let mask = (65535 - shl 16 65535 count) % 2 ^ 8
  ok (bit_and (shr word bit_offset % 2 ^ 8) mask)

pub record BitsCursor : Type 0 where
  pub pos : ℕ
  pub bits : List ℕ

-- `BitsCursor::next`
unfoldable pub next : BitsCursor → ℕ → Result (ℕ × BitsCursor)
next cursor count = do
  ret ← get cursor.bits cursor.pos count
  ok (ret, record cursor { pos = cursor.pos + count })

-- A sum of `u16`s panics when it overflows.
unfoldable pub add16 : ℕ → ℕ → Result ℕ
add16 a b = if ltb (a + b) (2 ^ 16) then ok (a + b) else panic

-- `prev - magnitude` stays above 0, since this branch has `magnitude <= prev`.
unfoldable pub decode_next_px : ℕ → ℕ → ℕ → Result ℕ
decode_next_px j shift prev =
    let magnitude = shl 16 0x80 shift in
    if not (j == 0)
    then (if ltb prev magnitude || shift == 4
        then ok (bit_or (shl 16 j shift) (bit_and prev (65535 - shl 16 65535 shift)))
        else add16 (prev - magnitude) (shl 16 j shift))
    else ok prev

-- `color_nonzero`: whether a nonzero pixel was met among the even and among the odd pixels.
pub record Colors : Type 0 where
  pub even : Bool
  pub odd : Bool

unfoldable pub is_nonzero : Colors → ℕ → Bool
is_nonzero c px = if px % 2 == 0 then c.even else c.odd

unfoldable pub set_nonzero : Colors → ℕ → Colors
set_nonzero c px = if px % 2 == 0 then record c { even = true } else record c { odd = true }

-- The mutable state of `decode_chunk`.
pub record Chunk : Type 0 where
  pub cursor : BitsCursor
  pub color_nonzero : Colors
  pub out : List ℕ

unfoldable pub load_initial_px : Chunk → ℕ → Result (ℕ × Chunk)
load_initial_px c px = do
  (top, cursor') ← next c.cursor 8
  (if top == 0 && not (is_nonzero c.color_nonzero px)
      then ok (bit_or (shl 16 top 4) 0, record c { cursor = cursor' })
      else (do
        (bottom, cursor'') ← next cursor' 4
        ok (
          bit_or (shl 16 top 4) bottom,
          record c { cursor = cursor''; color_nonzero = set_nonzero c.color_nonzero px },
        )))

-- `px`, for the pixel `prev` of the same colour.
unfoldable pub pixel_value : Chunk → ℕ → ℕ → ℕ → Result (ℕ × Chunk)
pixel_value c px shift prev =
    if is_nonzero c.color_nonzero px
    then (do
      (j, cursor') ← next c.cursor 8
      v ← decode_next_px j shift prev
      ok (v, record c { cursor = cursor' }))
    else load_initial_px c px

-- `out[px] = …`
unfoldable pub store_px : ℕ → ℕ × Chunk → Result Chunk
store_px px p = do out' ← update p.1.out px p.0; ok (record p.1 { out = out' })

-- One pixel of a group: `px_allidx`, and the shift of the group.
unfoldable pub decode_px : Chunk → ℕ → ℕ → Result Chunk
decode_px c px shift = do
  prev ← index c.out (px - 2)
  p ← pixel_value c px shift prev
  store_px px p

-- `for diffidx in 0..4`, from the group of pixel `px` on.
unfoldable pub decode_groups : ℕ → ℕ → Chunk → Result Chunk
decode_groups zero px c = ok c
decode_groups (suc groups) px c = do
  (shift, cursor') ← next c.cursor 2
  let shift' = shr 4 (3 - shift)
  c1 ← decode_px (record c { cursor = cursor' }) px shift'
  c2 ← decode_px c1 (px + 1) shift'
  c3 ← decode_px c2 (px + 2) shift'
  decode_groups groups (px + 3) c3

abbrev pub start : List ℕ → Chunk
start bits = record {
  cursor = record { pos = 0; bits = bits };
  color_nonzero = record { even = false; odd = false };
  out = replicate 14 0;
}

-- `out[px] = load_initial_px(px, …)`
unfoldable pub initial_px : Chunk → ℕ → Result Chunk
initial_px c px = do p ← load_initial_px c px; store_px px p

unfoldable pub decode_chunk : List ℕ → Result (List ℕ)
decode_chunk bits = do
  c ← initial_px (start bits) 0
  d ← initial_px c 1
  e ← decode_groups 4 2 d
  ok e.out

unfoldable pub chunk_to_offset : ℕ → ℕ
chunk_to_offset idx = if ltb 0x200 idx then idx * 16 - 0x2008 else idx * 16 + 0x1ff8

-- `&data[from..][..len]`
unfoldable pub slice_of : List ℕ → ℕ → ℕ → Result (List ℕ)
slice_of xs from len = do require (leb (from + len) (length xs)); ok (take len (drop from xs))

unfoldable pub block_get_chunk : List ℕ → ℕ → Result (List ℕ)
block_get_chunk input chunk_idx = do
  let block_idx = chunk_idx * 16 / 0x4000
  block ← slice_of input (block_idx * 0x4000) 0x4000
  let data_offset = chunk_to_offset (chunk_idx % (0x4000 / 16))
  (if data_offset == 0x3ff8
      then (do front ← slice_of block data_offset 8; back ← slice_of block 0 8; ok (front ++ back))
      else slice_of block data_offset 16)

-- The chunks from `i` on, decoded one after the other into consecutive slots of 14 pixels.
unfoldable pub decode_chunks : List ℕ → ℕ → ℕ → Result (List ℕ)
decode_chunks input i zero = ok []
decode_chunks input i (suc left) = do
  chunk ← block_get_chunk input i
  decoded ← decode_chunk chunk
  rest ← decode_chunks input (i + 1) left
  ok (decoded ++ rest)

-- The output has a slot for each chunk: `14 * len / 16` pixels where 0x4000 divides `len`.
unfoldable pub panasonic_raw1 : List ℕ → Result (List ℕ)
panasonic_raw1 input =
    if length input % 0x4000 == 0
    then decode_chunks input 0 (length input / 16)
    else err unexpected_eof
