-- ===== src/Nikon/Cfa/Examples.antt =====
-- A code and a difference, read by a reader that is its bits.
use libopenraw.Prelude.{Bool, true, false, List, [], ◌∷◌}

abbrev five_left : List Bool
five_left = true ∷ true ∷ false ∷ true ∷ true ∷ []
