-- ===== src/Decompress/Tiled/Examples.antt =====
-- Two tiles of 2 by 2 that make a picture of 3 by 2.
use libopenraw.Prelude.{ℕ, ◌*◌, ◌≡◌, refl, List, [], ◌∷◌, map, some, length, ok, arith}
use libopenraw.Decompress.Ljpeg.Image.{Tile}
use libopenraw.Decompress.Tiled.{
  combine_tiles, combine_from, copy_tile, copy_rows, next_place, subslice, copy_to,
}
use libopenraw.Decompress.Tiled.Grid.{IsCombined}
use libopenraw.Decompress.Tiled.Combined.{combine_tiles-IsCombined}

abbrev two_by_two : List ℕ → Tile
two_by_two values = record {
  width = 2;
  height = 2;
  u_width = 2;
  u_height = 2;
  bpc = 16;
  buf = values;
}

abbrev two_tiles : List Tile
two_tiles = two_by_two (1 ∷ 2 ∷ 4 ∷ 5 ∷ []) ∷ two_by_two (3 ∷ 9 ∷ 6 ∷ 9 ∷ []) ∷ []

combined :
    combine_tiles 3 2 (0 ∷ 0 ∷ 0 ∷ 0 ∷ 0 ∷ 0 ∷ []) (map some two_tiles)
    ≡ ok (1 ∷ 2 ∷ 3 ∷ 4 ∷ 5 ∷ 6 ∷ [])
unfolding combine_tiles combine_from copy_tile copy_rows next_place subslice copy_to
combined = refl

combine_tiles-IsCombined_example :
    (picture : List ℕ) × (combine_tiles 3 2 (0 ∷ 0 ∷ 0 ∷ 0 ∷ 0 ∷ 0 ∷ []) (map some two_tiles)
      ≡ ok picture)
    × (length picture ≡ 2 * 3)
    × IsCombined 3 2 2 2 2 two_tiles picture
combine_tiles-IsCombined_example =
    combine_tiles-IsCombined 3 2 2 2 2 1 two_tiles (0 ∷ 0 ∷ 0 ∷ 0 ∷ 0 ∷ 0 ∷ []) (omega arith)
      (omega arith) (omega arith) (omega arith) (omega arith) (omega arith)
      ((refl, refl, omega arith), ((refl, refl, omega arith), tt)) refl
