-- ===== src/Decompress/Tiled/Combined.antt =====
-- The tiles of a grid make the picture.
use native.Mathlib.Nat.{mul-le-mul_right}
use libopenraw.Prelude.{
  ℕ, suc, ◌+◌, ◌*◌, ◌≤◌, ◌<◌, ◌≡◌, ◌⊎◌, inl, inr, refl, sym, ap, ◌∙◌, List, [], ◌∷◌, map, none,
  some, length, get_elem?, All, Result, ok, ltb, ltb→lt, ltb→ge, Bool-cases, arith,
}
use libopenraw.Decompress.Ljpeg.Image.{Tile}
use libopenraw.Decompress.Tiled.{next_place, combine_from, combine_tiles}
use libopenraw.Decompress.Tiled.Rows.{row_le}
use libopenraw.Decompress.Tiled.Grid.{
  IsTileOf, IsCombined, IsDone, suc_mul, IsDone-beside, IsDone-below, IsDone-all, beside_lem,
  below_lem, copy_tile-IsTileWritten,
}

module _ (w h tw th across down : ℕ) (tiles : List Tile) (covers : w ≤ across * tw)
    (tight : across * tw < w + tw) (low : h ≤ down * th) (many : down * across ≤ length tiles) where
  -- The picture, once the tiles that are left are combined.
  abbrev IsFinished : Result (List ℕ) → Type 0
  IsFinished m =
      (ys : List ℕ) × (m ≡ ok ys) × (length ys ≡ h * w) × IsCombined w h tw th across tiles ys

  next_place_lem :
      (tile : Tile) (fr fc : ℕ)
      → IsTileOf tw th tile
      → ((fc + tw < w) × (next_place w h tile fr fc ≡ some (fr, fc + tw)))
        ⊎ ((w ≤ fc + tw) × (fr + th < h) × (next_place w h tile fr fc ≡ some (fr + th, 0)))
        ⊎ ((w ≤ fc + tw) × (h ≤ fr + th) × (next_place w h tile fr fc ≡ none))
  unfolding next_place
  next_place_lem tile fr fc size =
      rw (size.0, size.1)
        (elim (Bool-cases (ltb (fc + tw) w)) [
          | inl e ↦ inl (ltb→lt (fc + tw) w e, rw e refl)
          | inr e ↦ elim (Bool-cases (ltb (fr + th) h)) [
            | inl f ↦ inr (inl (ltb→ge (fc + tw) w e, ltb→lt (fr + th) h f, rw (e, f) refl))
            | inr f ↦ inr (inr (ltb→ge (fc + tw) w e, ltb→ge (fr + th) h f, rw (e, f) refl))
          ]
        ])

  enough_rows : (row : ℕ) → row * th < h → row < down
  enough_rows row less = elim (Bool-cases (ltb row down)) [
    | inl e ↦ ltb→lt row down e
    | inr e ↦ absurd (omega (arith, mul-le-mul_right th (ltb→ge row down e), less, low))
  ]

  combine_from-IsFinished :
      (left : List Tile) (row col fr fc : ℕ) (xs : List ℕ)
      → All (IsTileOf tw th) left
      → ((i : ℕ) → get_elem? left i ≡ get_elem? tiles (row * across + col + i))
      → length left + (row * across + col) ≡ length tiles
      → length xs ≡ h * w
      → row * th ≡ fr
      → col * tw ≡ fc
      → fr < h
      → fc < w
      → col < across
      → IsDone w h tw th across tiles covers tight xs row col
      → IsFinished (combine_from w h (map some left) fr fc xs)
  unfolding combine_from
  combine_from-IsFinished [] row col fr fc xs sizes same count full at_row at_col fr_in fc_in inside
        done =
      absurd (
        omega (
          arith,
          row_le row down across (enough_rows row (omega (arith, at_row, fr_in))),
          count,
          many,
          inside,
        ))
  combine_from-IsFinished (tile ∷ left) row col fr fc xs sizes same count full at_row at_col fr_in
        fc_in inside done =
      let (ys, copied, written) =
        copy_tile-IsTileWritten w h tw th across tiles covers tight tile fr fc xs sizes.0 full
          fc_in in
      let found : get_elem? tiles (row * across + col) ≡ some tile =
        ap (get_elem? tiles) (omega arith) ∙ sym (same 0) in
      let later =
        IsDone-beside w h tw th across tiles covers tight xs ys row col fr fc tile at_row at_col
          sizes.0 found written done in
      rw copied (elim (next_place_lem tile fr fc sizes.0) [
        | inl e ↦
            let column = suc_mul col tw in
            rw e.1 (
              combine_from-IsFinished left row (col + 1) fr (fc + tw) ys sizes.1
                (λ i. same (suc i) ∙ ap (get_elem? tiles) (omega arith)) (omega (arith, count))
                (written.size ∙ full) at_row (omega (arith, column, at_col)) fr_in e.0
                (beside_lem w h tw th across tiles covers tight col
                  (omega (arith, column, at_col, e.0)))
                later)
        | inr (inl e) ↦
            let last =
              below_lem w h tw th across tiles covers tight col
                (omega (arith, suc_mul col tw, at_col, e.0)) in
            let index = suc_mul row across in
            rw e.2 (
              combine_from-IsFinished left (row + 1) 0 (fr + th) 0 ys sizes.1
                (λ i. same (suc i) ∙ ap (get_elem? tiles) (omega (arith, index, last, inside)))
                (omega (arith, count, index, last, inside)) (written.size ∙ full)
                (omega (arith, suc_mul row th, at_row)) (omega arith) e.1 (omega (arith, fc_in))
                (omega (arith, inside))
                (IsDone-below w h tw th across tiles covers tight ys row (col + 1) last later))
        | inr (inr e) ↦
            let last =
              below_lem w h tw th across tiles covers tight col
                (omega (arith, suc_mul col tw, at_col, e.0)) in
            rw e.2 (
              ys,
              refl,
              written.size ∙ full,
              IsDone-all w h tw th across tiles covers tight ys (row + 1)
                  (omega (arith, suc_mul row th, at_row, e.1))
                  (IsDone-below w h tw th across tiles covers tight ys row (col + 1) last later),
            )
      ])

-- For a picture that is not empty and a grid of tiles of one size that just covers its width and
-- covers its height, none of them missing: whatever the buffer holds before, every place of the
-- combined picture has the value that its tile has for it.
pub combine_tiles-IsCombined :
    (width height tw th across down : ℕ) (tiles : List Tile) (before : List ℕ)
    → 1 ≤ width
    → 1 ≤ height
    → width ≤ across * tw
    → across * tw < width + tw
    → height ≤ down * th
    → down * across ≤ length tiles
    → All (IsTileOf tw th) tiles
    → length before ≡ height * width
    → (picture : List ℕ) × (combine_tiles width height before (map some tiles) ≡ ok picture)
      × (length picture ≡ height * width)
      × IsCombined width height tw th across tiles picture
unfolding combine_tiles
combine_tiles-IsCombined width height tw th across down tiles before wide high covers tight low many
      sizes full =
    combine_from-IsFinished width height tw th across down tiles covers tight low many tiles 0 0 0 0
      before sizes (λ i. ap (get_elem? tiles) (omega arith)) (omega arith) full (omega arith)
      (omega arith) high wide some_tile
      (λ row col tile inside place. absurd (no_place row col place))
  where
    some_tile : 0 < across
    some_tile = elim (Bool-cases (ltb 0 across)) [
      | inl e ↦ ltb→lt 0 across e
      | inr e ↦ absurd (omega (arith, mul-le-mul_right tw (ltb→ge 0 across e), covers, wide))
    ]

    no_place : (row col : ℕ) → (row < 0) ⊎ ((row ≡ 0) × (col < 0)) → ⊥
    no_place row col (inl e) = omega (arith, e)
    no_place row col (inr e) = omega (arith, e.1)
