-- ===== src/Decompress/SlicedBuffer/Examples.antt =====
-- A picture of three slices, and the theorems at concrete inputs.
use libopenraw.Prelude.{ℕ, ◌≡◌, refl, List, [], ◌∷◌, ◌++◌, some, ok, index, update, arith, ◌>>=◌}
use libopenraw.Decompress.SlicedBuffer.{
  SlicedBuffer, slices_or_width, new, leave_slice, enter_slice, next_slice, next_row, advance,
  extend, extend_sliced, into_vec,
}
use libopenraw.Decompress.SlicedBuffer.Extend.{IsLaidOut, extend-new-IsLaidOut}
use libopenraw.Decompress.SlicedBuffer.Pieces.{extend-append}

abbrev stream : List ℕ
stream = 1 ∷ 2 ∷ 3 ∷ 4 ∷ 5 ∷ 6 ∷ 7 ∷ 8 ∷ 9 ∷ 10 ∷ []

abbrev widths : List ℕ
widths = 2 ∷ 2 ∷ 1 ∷ []

-- Two rows of five pixels: 1 2 | 5 6 | 9 over 3 4 | 7 8 | 10.
three_slices :
    (new 0 5 2 (some widths) >>= extend stream >>= λ sb. ok (into_vec sb))
    ≡ ok (1 ∷ 2 ∷ 5 ∷ 6 ∷ 9 ∷ 3 ∷ 4 ∷ 7 ∷ 8 ∷ 10 ∷ [])
unfolding new slices_or_width extend extend_sliced advance next_row next_slice leave_slice
    enter_slice into_vec index update
three_slices = refl

extend-new-IsLaidOut_example :
    IsLaidOut 5 2
      (slices_or_width 5 (some widths))
      stream
      (new 0 5 2 (some widths) >>= extend stream)
extend-new-IsLaidOut_example =
    extend-new-IsLaidOut 0 5 2 (some widths) stream (unfold slices_or_width in omega arith)
      (unfold slices_or_width in refl) (omega arith) (omega arith) refl

abbrev blank : SlicedBuffer ℕ
blank = record {
  width = 5;
  height = 2;
  buffer = 0 ∷ 0 ∷ 0 ∷ 0 ∷ 0 ∷ 0 ∷ 0 ∷ 0 ∷ 0 ∷ 0 ∷ [];
  slices = widths;
  slice = 0;
  slice_offset = 0;
  slice_width = 2;
  row_offset = 0;
  pos = 0;
}

extend-append_example :
    extend (1 ∷ 2 ∷ 3 ∷ [] ++ 4 ∷ 5 ∷ []) blank
    ≡ (extend (1 ∷ 2 ∷ 3 ∷ []) blank >>= extend (4 ∷ 5 ∷ []))
extend-append_example = extend-append (1 ∷ 2 ∷ 3 ∷ []) (4 ∷ 5 ∷ []) blank
