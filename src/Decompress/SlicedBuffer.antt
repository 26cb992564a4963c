-- ===== src/Decompress/SlicedBuffer.antt =====
-- src/decompress/sliced_buffer.rs: the buffer that Canon's vertical slices are written into, one
-- slice after the other. `usize` is 64 bits wide and the sizes come from 16-bit and 32-bit fields,
-- so no index can overflow; a division by a zero width and a write past the buffer panic.
pub mod Place
pub mod State
pub mod Cursor
pub mod Spot
pub mod Writing
pub mod Extend
pub mod Pieces
mod Examples
use libopenraw.Prelude.{
  ℕ, zero, suc, ◌+◌, ◌-◌, ◌*◌, ◌/◌, ◌≤◌, Bool, true, false, not, Option, none, some, List, [], ◌∷◌,
  ◌++◌, ◌==◌, leb, ltb, if◌then◌else◌, length, get_elem?, set, replicate, Result, ok, panic, ◌>>=◌,
  ◌>>◌, index, update, require,
}

pub record SlicedBuffer (T : Type 0) : Type 0 where
  pub width : ℕ
  pub height : ℕ
  pub buffer : List T
  pub slices : List ℕ
  pub slice : ℕ
  pub slice_offset : ℕ
  pub slice_width : ℕ
  pub row_offset : ℕ
  pub pos : ℕ

-- The widths of the slices, one slice of the whole width where none are given.
unfoldable pub slices_or_width : ℕ → Option (List ℕ) → List ℕ
slices_or_width width none = width ∷ []
slices_or_width width (some slices) = slices

module _ {T : Type 0} where
  -- `SlicedBuffer::new`; `default` is `T::default()`.
  unfoldable pub new : T → ℕ → ℕ → Option (List ℕ) → Result (SlicedBuffer T)
  new default width height slices = do
    let slices' = slices_or_width width slices
    first ← index slices' 0
    ok (record {
      width = width;
      height = height;
      buffer = replicate (width * height) default;
      slices = slices';
      slice = 0;
      slice_offset = 0;
      slice_width = first;
      row_offset = 0;
      pos = 0;
    })

  -- The first half of `next_slice`: the offset grows by the slice that is left.
  unfoldable pub leave_slice : SlicedBuffer T → SlicedBuffer T
  leave_slice sb = elim (get_elem? sb.slices sb.slice) [
    | none ↦ sb
    | some w ↦ record sb { slice_offset = sb.slice_offset + w; slice = sb.slice + 1 }
  ]

  -- The second half: past the last slice the width is 0.
  unfoldable pub enter_slice : SlicedBuffer T → SlicedBuffer T
  enter_slice sb = elim (get_elem? sb.slices sb.slice) [
    | none ↦ record sb { slice_width = 0 }
    | some w ↦ record sb { slice_width = w }
  ]

  unfoldable pub next_slice : SlicedBuffer T → SlicedBuffer T
  next_slice sb = enter_slice (leave_slice sb)

  -- `next_row`: the new position is returned and is not yet stored in `pos`.
  unfoldable pub next_row : SlicedBuffer T → Result (SlicedBuffer T × ℕ)
  next_row sb = do
    require (not (sb.width == 0))
    let row = sb.pos / sb.width + 1
    let moved = if row == sb.height then next_slice sb else sb
    let row' = if row == sb.height then 0 else row
    let new_pos = row' * sb.width + moved.slice_offset
    ok (record moved { row_offset = new_pos }, new_pos)

  unfoldable pub advance : SlicedBuffer T → Result (SlicedBuffer T × ℕ)
  advance sb = do
    require (leb sb.row_offset (sb.pos + 1))
    (if leb sb.slice_width (sb.pos + 1 - sb.row_offset) then next_row sb else ok (sb, sb.pos + 1))

  -- One slice: the values are copied on until they or the buffer end.
  unfoldable pub extend_single : List T → SlicedBuffer T → SlicedBuffer T
  extend_single [] sb = sb
  extend_single (d ∷ rest) sb =
      if ltb sb.pos (length sb.buffer)
      then extend_single rest (record sb { buffer = set sb.buffer sb.pos d; pos = sb.pos + 1 })
      else sb

  -- Several slices: `iter.for_each`.
  unfoldable pub extend_sliced : List T → SlicedBuffer T → Result (SlicedBuffer T)
  extend_sliced [] sb = ok sb
  extend_sliced (d ∷ rest) sb = do
    buffer' ← update sb.buffer sb.pos d
    moved ← advance (record sb { buffer = buffer' })
    extend_sliced rest (record moved.0 { pos = moved.1 })

  -- `extend`; slicing at `pos` panics when it lies past the buffer.
  unfoldable pub extend : List T → SlicedBuffer T → Result (SlicedBuffer T)
  extend iter sb =
      if length sb.slices == 1
      then (do require (leb sb.pos (length sb.buffer)); ok (extend_single iter sb))
      else extend_sliced iter sb

  -- `Vec::from`
  unfoldable pub into_vec : SlicedBuffer T → List T
  into_vec sb = sb.buffer
