-- ===== src/Decompress/Tiled/Grid.antt =====
-- Tiles of one size, laid out row by row.
use native.Mathlib.Nat.{mul-le-mul_right}
use libopenraw.Prelude.{
  ℕ, ◌+◌, ◌-◌, ◌*◌, ◌≤◌, ◌<◌, ◌≡◌, ◌⊎◌, inl, inr, refl, sym, ap, ◌∙◌, subst, List, some, length,
  get_elem?, ok, le→leb, ltb, ltb→lt, ltb→ge, Bool-cases, min, arith,
}
use libopenraw.Decompress.Ljpeg.Image.{Tile}
use libopenraw.Decompress.Tiled.{copy_tile}
use libopenraw.Decompress.Tiled.Rows.{row_le, three_way}
use libopenraw.Decompress.Tiled.Written.{IsTileWritten, copy_rows-IsTileWritten}

-- A tile of `tw` columns and `th` rows that has a value for each place.
abbrev pub IsTileOf : ℕ → ℕ → Tile → Type 0
IsTileOf tw th tile = (tile.u_width ≡ tw) × (tile.u_height ≡ th) × (th * tw ≤ length tile.buf)

-- The place `k`, `r` of the tile in the column `col` and the row `row` of the grid is in the picture,
-- and has the value of the tile.
abbrev pub IsPixelOf : ℕ → ℕ → ℕ → ℕ → List ℕ → ℕ → ℕ → Tile → Type 0
IsPixelOf w h tw th picture row col tile =
    (r k : ℕ)
    → r < th
    → k < tw
    → row * th + r < h
    → col * tw + k < w
    → get_elem? picture ((row * th + r) * w + (col * tw + k)) ≡ get_elem? tile.buf (r * tw + k)

-- Every tile of a grid, `across` tiles wide, is where it belongs.
abbrev pub IsCombined : ℕ → ℕ → ℕ → ℕ → ℕ → List Tile → List ℕ → Type 0
IsCombined w h tw th across tiles picture =
    (row col : ℕ) (tile : Tile)
    → col < across
    → get_elem? tiles (row * across + col) ≡ some tile
    → IsPixelOf w h tw th picture row col tile

pub suc_mul : (y w : ℕ) → (y + 1) * w ≡ y * w + w
suc_mul y w = grind arith

module _ (w h tw th across : ℕ) (tiles : List Tile) (covers : w ≤ across * tw)
    (tight : across * tw < w + tw) where
  -- The tiles before a place of the grid are done.
  abbrev pub IsDone : List ℕ → ℕ → ℕ → Type 0
  IsDone picture row col =
      (row' col' : ℕ) (tile : Tile)
      → col' < across
      → (row' < row) ⊎ ((row' ≡ row) × (col' < col))
      → get_elem? tiles (row' * across + col') ≡ some tile
      → IsPixelOf w h tw th picture row' col' tile

  pub IsDone-beside :
      (xs ys : List ℕ) (row col fr fc : ℕ) (tile : Tile)
      → row * th ≡ fr
      → col * tw ≡ fc
      → IsTileOf tw th tile
      → get_elem? tiles (row * across + col) ≡ some tile
      → IsTileWritten w h tile fr fc (min tile.u_width (w - fc)) xs 0 th ys
      → IsDone xs row col
      → IsDone ys row (col + 1)
  IsDone-beside xs ys row col fr fc tile at_row at_col size found written done row' col' tile'
        inside (inl before) found' r k low narrow y x =
      written.kept (row' * th + r) (col' * tw + k) x
        (inl (omega (arith, row_le row' row th before, at_row, low)))
      ∙ done row' col' tile' inside (inl before) found' r k low narrow y x
  IsDone-beside xs ys row col fr fc tile at_row at_col size found written done row' col' tile'
        inside (inr here) found' r k low narrow y x =
      elim (three_way col' col) [
        | inl before ↦
            written.kept (row' * th + r) (col' * tw + k) x
              (inr (inr (inl (omega (arith, row_le col' col tw before, at_col, narrow)))))
            ∙ done row' col' tile' inside (inr (here.0, before)) found' r k low narrow y x
        | inr (inl after) ↦ absurd (omega (arith, after, here.1))
        | inr (inr same) ↦
            let same_place : some tile' ≡ some tile =
              sym found' ∙ ap (λ n. get_elem? tiles n) (rw (here.0, same) refl) ∙ found in
            let same_tile : tile' ≡ tile = cc in
            let column : k < min tile.u_width (w - fc) =
              omega (arith, narrow, size.0, x, at_col, ap (λ n. n * tw) same) in
            let pixel =
              written.written r k (omega arith) low column
                (omega (arith, y, at_row, ap (λ n. n * th) here.0)) in
            rw (same_tile, here.0, same, at_row, at_col)
              (subst (λ n. get_elem? ys ((fr + r) * w + (fc + k)) ≡ get_elem? tile.buf (r * n + k))
                size.0 pixel)
      ]

  pub IsDone-below :
      (xs : List ℕ) (row col : ℕ) → across ≤ col → IsDone xs row col → IsDone xs (row + 1) 0
  IsDone-below xs row col full done row' col' tile inside (inl before) found =
      elim (three_way row' row) [
        | inl above ↦ done row' col' tile inside (inl above) found
        | inr (inl after) ↦ absurd (omega (arith, after, before))
        | inr (inr same) ↦
            done row' col' tile inside (inr (same, omega (arith, inside, full))) found
      ]
  IsDone-below xs row col full done row' col' tile inside (inr here) found =
      absurd (omega (arith, here.1))

  -- Where the next place is, and that there is none when the rows reach the end.
  pub beside_lem : (col : ℕ) → (col + 1) * tw < w → col + 1 < across
  beside_lem col less = elim (Bool-cases (ltb (col + 1) across)) [
    | inl e ↦ ltb→lt (col + 1) across e
    | inr e ↦ absurd (omega (arith, mul-le-mul_right tw (ltb→ge (col + 1) across e), less, covers))
  ]

  pub below_lem : (col : ℕ) → w ≤ (col + 1) * tw → across ≤ col + 1
  below_lem col reached = elim (Bool-cases (ltb (col + 1) across)) [
    | inl e ↦
        absurd
          (omega (arith, row_le (col + 1) across tw (ltb→lt (col + 1) across e), reached, tight))
    | inr e ↦ ltb→ge (col + 1) across e
  ]

  pub IsDone-all :
      (xs : List ℕ) (row : ℕ)
      → h ≤ row * th
      → IsDone xs row 0
      → IsCombined w h tw th across tiles xs
  IsDone-all xs row reached done row' col' tile inside found r k low narrow y x =
      elim (Bool-cases (ltb row' row)) [
        | inl e ↦ done row' col' tile inside (inl (ltb→lt row' row e)) found r k low narrow y x
        | inr e ↦ absurd (omega (arith, mul-le-mul_right th (ltb→ge row' row e), reached, y))
      ]

  pub copy_tile-IsTileWritten :
      (tile : Tile) (fr fc : ℕ) (xs : List ℕ)
      → IsTileOf tw th tile
      → length xs ≡ h * w
      → fc < w
      → (ys : List ℕ) × (copy_tile w h tile fr fc xs ≡ ok ys)
        × IsTileWritten w h tile fr fc (min tile.u_width (w - fc)) xs 0 th ys
  unfolding copy_tile
  copy_tile-IsTileWritten tile fr fc xs size full inside =
      let enough : (0 + tile.u_height) * tile.u_width ≤ length tile.buf =
        rw (size.0, size.1) (omega (arith, size.2)) in
      let (ys, returns, written) =
        copy_rows-IsTileWritten w h tile fr fc (min tile.u_width (w - fc)) tile.u_height 0 xs full
          (omega arith) (omega (arith, inside)) enough in
      let all : 0 + tile.u_height ≡ th = omega (arith, size.1) in
      (
        ys,
        rw (le→leb fc w (omega (arith, inside))) returns,
        subst (λ n. IsTileWritten w h tile fr fc (min tile.u_width (w - fc)) xs 0 n ys) all written,
      )
