-- ===== src/Decompress/SlicedBuffer/Spot.antt =====
-- The position of the buffer is the place of the value that is next.
use libopenraw.Prelude.{
  ℕ, ◌+◌, ◌-◌, ◌*◌, ◌<◌, ◌≡◌, sym, ap, ◌∙◌, List, [], ◌∷◌, ◌++◌, lt→ltb, ge→ltb, mod_unique,
  div_unique, arith,
}
use libopenraw.Decompress.SlicedBuffer.{SlicedBuffer}
use libopenraw.Decompress.SlicedBuffer.Place.{sum, place_from, in_range}
use libopenraw.Decompress.SlicedBuffer.State.{InSlice}

-- The position of the cursor is the place of its value.
place-before :
    (width height : ℕ) (before : List ℕ) (w : ℕ) (after : List ℕ) (offset row column : ℕ)
    → row < height
    → column < w
    → place_from width height offset
        (before ++ (w ∷ after))
        (sum before * height + (row * w + column))
      ≡ row * width + (offset + sum before + column)
unfolding place_from
place-before width height [] w after offset row column h k =
    let whole : 0 * height + (row * w + column) ≡ row * w + column = omega arith in
    rw
      (
        whole,
        lt→ltb (row * w + column) (w * height) (in_range row column w height h k),
        div_unique row w column k,
        mod_unique row w column k,
      )
      (omega arith)
place-before width height (b ∷ bs) w after offset row column h k =
    let n = sum bs * height + (row * w + column) in
    let whole : (b + sum bs) * height + (row * w + column) ≡ b * height + n = omega arith in
    let back : b * height + n - b * height ≡ n = omega arith in
    rw (whole, ge→ltb (b * height + n) (b * height) (omega arith), back)
      (place-before width height bs w after (offset + b) row column h k ∙ omega arith)

pub pos-eq-place :
    {T : Type 0} {sb : SlicedBuffer T} {n : ℕ} (c : InSlice sb n)
    → sb.pos ≡ place_from sb.width sb.height 0 sb.slices n
pos-eq-place {sb} {n} c =
    c.pos_eq
    ∙ omega arith
    ∙ sym (
        place-before sb.width sb.height c.before c.w c.after 0 c.row c.column c.row_fits
          c.column_fits)
    ∙ ap (place_from sb.width sb.height 0 (c.before ++ (c.w ∷ c.after))) (sym c.n_eq)
    ∙ ap (λ ws. place_from sb.width sb.height 0 ws n) (sym c.slices_eq)
