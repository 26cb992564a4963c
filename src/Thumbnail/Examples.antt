-- ===== src/Thumbnail/Examples.antt =====
-- A thumbnail that is said to go past the end, and one that starts there.
use libopenraw.Prelude.{◌≡◌, [], ◌∷◌, ok, panic, arith}
use libopenraw.Io.{View}
use libopenraw.Thumbnail.{make_thumbnail}
use libopenraw.Thumbnail.Loaded.{make_thumbnail_outcome}

abbrev five_bytes : View
five_bytes = record { bytes = 1 ∷ 2 ∷ 3 ∷ 4 ∷ 5 ∷ []; pos = 0 }

make_thumbnail_outcome_example : make_thumbnail 3 10 five_bytes ≡ ok (4 ∷ 5 ∷ [])
make_thumbnail_outcome_example = make_thumbnail_outcome 3 10 five_bytes (omega arith)

behind_the_end : make_thumbnail 6 1 five_bytes ≡ panic
behind_the_end = make_thumbnail_outcome 6 1 five_bytes (omega arith)
