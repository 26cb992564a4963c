-- ===== src/Decompress/Tiled.antt =====
-- src/decompress/tiled.rs: tiles into a picture. A tile that could not be decompressed is none, and
-- the place for the next tile does not move.
pub mod Rows
pub mod Written
pub mod Grid
pub mod Combined
mod Examples
use libopenraw.Prelude.{
  Bool, true, false, ℕ, zero, suc, ◌+◌, ◌-◌, ◌*◌, min, List, [], ◌∷◌, ◌++◌, Option, none, some,
  length, take, drop, replicate, Result, ok, ◌>>=◌, ◌>>◌, require, leb, ltb, if◌then◌else◌,
}
use libopenraw.Decompress.Ljpeg.Image.{Tile}

-- `xs[pos..][..n]`
unfoldable pub subslice : List ℕ → ℕ → ℕ → Result (List ℕ)
subslice xs pos n = do
  require (leb pos (length xs))
  require (leb n (length (drop pos xs)))
  ok (take n (drop pos xs))

-- `xs[pos..][..values.len()].copy_from_slice(values)`
unfoldable pub copy_to : List ℕ → ℕ → List ℕ → Result (List ℕ)
copy_to xs pos values = do
  require (leb pos (length xs))
  require (leb (length values) (length (drop pos xs)))
  ok (take pos xs ++ values ++ drop (pos + length values) xs)

module _ (width height : ℕ) where
  -- The rows of a tile from `r` on, `left` of them; the rows past the last of the picture are dropped.
  unfoldable pub copy_rows : Tile → ℕ → ℕ → ℕ → ℕ → ℕ → List ℕ → Result (List ℕ)
  copy_rows tile first_row first_col row_len zero r picture = ok picture
  copy_rows tile first_row first_col row_len (suc left) r picture =
      elim (leb height (first_row + r)) [
        | true ↦ ok picture
        | false ↦ do
          values ← subslice tile.buf (r * tile.u_width) row_len
          picture' ← copy_to picture ((first_row + r) * width + first_col) values
          copy_rows tile first_row first_col row_len left (r + 1) picture'
      ]

  unfoldable pub copy_tile : Tile → ℕ → ℕ → List ℕ → Result (List ℕ)
  copy_tile tile first_row first_col picture = do
    require (leb first_col width)
    copy_rows tile first_row first_col (min tile.u_width (width - first_col)) tile.u_height 0
        picture

  -- Where the next tile goes: beside, or at the start of the rows below; none when the picture is full.
  unfoldable pub next_place : Tile → ℕ → ℕ → Option (ℕ × ℕ)
  next_place tile first_row first_col =
      if ltb (first_col + tile.u_width) width
      then some (first_row, first_col + tile.u_width)
      else (if ltb (first_row + tile.u_height) height
          then some (first_row + tile.u_height, 0)
          else none)

  unfoldable pub combine_from : List (Option Tile) → ℕ → ℕ → List ℕ → Result (List ℕ)
  combine_from [] first_row first_col picture = ok picture
  combine_from (none ∷ tiles) first_row first_col picture =
      combine_from tiles first_row first_col picture
  combine_from (some tile ∷ tiles) first_row first_col picture = do
    picture' ← copy_tile tile first_row first_col picture
    elim (next_place tile first_row first_col) [
      | none ↦ ok picture'
      | some place ↦ combine_from tiles place.0 place.1 picture'
    ]

  -- `TiledLJpeg::combine_tiles`. The buffer is uninitialized in the source: `before` is what it holds.
  unfoldable pub combine_tiles : List ℕ → List (Option Tile) → Result (List ℕ)
  combine_tiles before tiles = combine_from tiles 0 0 before
