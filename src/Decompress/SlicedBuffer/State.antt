-- ===== src/Decompress/SlicedBuffer/State.antt =====
-- Where the buffer stands after n values, as the layout of `Place` says.
use libopenraw.Prelude.{ℕ, ◌+◌, ◌*◌, ◌<◌, ◌≡◌, ◌⊎◌, List, ◌∷◌, ◌++◌, All, length}
use libopenraw.Decompress.SlicedBuffer.{SlicedBuffer}
use libopenraw.Decompress.SlicedBuffer.Place.{sum, IsPositive}

-- Value `n` is the next to be written, at a row and a column of the slice of width `w`.
pub record InSlice {T : Type 0} (sb : SlicedBuffer T) (n : ℕ) : Type 0 where
  pub before : List ℕ
  pub w : ℕ
  pub after : List ℕ
  pub row : ℕ
  pub column : ℕ
  pub slices_eq : sb.slices ≡ before ++ (w ∷ after)
  pub slice_eq : sb.slice ≡ length before
  pub offset_eq : sb.slice_offset ≡ sum before
  pub width_eq : sb.slice_width ≡ w
  pub row_eq : sb.row_offset ≡ row * sb.width + sum before
  pub pos_eq : sb.pos ≡ row * sb.width + (sum before + column)
  pub row_fits : row < sb.height
  pub column_fits : column < w
  pub n_eq : n ≡ sum before * sb.height + (row * w + column)
  pub positive : All IsPositive after
  pub fills : sum before + (w + sum after) ≡ sb.width

-- `buffer` is no part of where the buffer stands.
pub InSlice-buffer :
    {T : Type 0} {sb : SlicedBuffer T} {n : ℕ} (b : List T)
    → InSlice sb n
    → InSlice (record sb { buffer = b }) n
InSlice-buffer b c = record {
  before = c.before;
  w = c.w;
  after = c.after;
  row = c.row;
  column = c.column;
  slices_eq = c.slices_eq;
  slice_eq = c.slice_eq;
  offset_eq = c.offset_eq;
  width_eq = c.width_eq;
  row_eq = c.row_eq;
  pos_eq = c.pos_eq;
  row_fits = c.row_fits;
  column_fits = c.column_fits;
  n_eq = c.n_eq;
  positive = c.positive;
  fills = c.fills;
}

-- The next value belongs into a slice, or all have been written.
abbrev pub IsAt : {T : Type 0} → SlicedBuffer T → ℕ → Type 0
IsAt sb n = InSlice sb n ⊎ (n ≡ sb.width * sb.height)

-- What writing and moving leave alone.
pub record SameShape {T : Type 0} (a b : SlicedBuffer T) : Type 0 where
  pub same_width : a.width ≡ b.width
  pub same_height : a.height ≡ b.height
  pub same_slices : a.slices ≡ b.slices
