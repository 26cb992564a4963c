-- ===== src/Bitmap/Examples.antt =====
-- A picture of 2 by 2 pixels, and the theorem at concrete inputs.
use libopenraw.Prelude.{ℕ, ◌+◌, ◌<◌, ◌≤◌, ◌≡◌, ◌⊎◌, refl, none, some, [], ◌∷◌, ok, panic, arith}
use libopenraw.Bitmap.{ImageBuffer, pixel_at}
use libopenraw.Bitmap.Pixels.{IsWhole, pixel_at_outcome}

abbrev picture : ImageBuffer ℕ
picture = record {
  data_of = 1 ∷ 2 ∷ 3 ∷ 4 ∷ 5 ∷ 6 ∷ 7 ∷ 8 ∷ [];
  width = 2;
  height = 2;
  bpc = 16;
  cc = 2;
}

picture-IsWhole : IsWhole picture
picture-IsWhole = record { filled = refl; small = omega arith; coloured = omega arith }

-- At the right edge.
pixel_at_outcome_example :
    (2 < 2 → 0 < 2 → pixel_at picture 2 0 ≡ ok (some (5 ∷ 6 ∷ [])))
    × ((2 < 2) ⊎ (2 < 0) → pixel_at picture 2 0 ≡ ok none)
    × (◌≡◌ {A = ℕ} 2 2 → 0 + 1 < 2 → 0 < 2 → pixel_at picture 2 0 ≡ ok (some (5 ∷ 6 ∷ [])))
    × (◌≡◌ {A = ℕ} 0 2 → 2 ≤ 2 → pixel_at picture 2 0 ≡ panic)
pixel_at_outcome_example = pixel_at_outcome picture picture-IsWhole 2 0
