-- ===== src/Mosaic/Examples.antt =====
-- The tests of src/mosaic.rs, and the theorems at concrete inputs.
use libopenraw.Prelude.{
  ℕ, ◌==◌, if◌then◌else◌, ◌≡◌, refl, Option, none, some, List, [], ◌∷◌, ok, err, panic, other,
  arith, index,
}
use libopenraw.Mosaic.{
  PatternColour, pattern, codes, colour_code, try_from, try_bayer, take_colours, non_rgb22, red,
  green, blue, unknown, rggb, colour_at, width, height,
}
use libopenraw.Mosaic.Codes.{IsDerived}
use libopenraw.Mosaic.Lookup.{code_of, colour_at-try_from}

-- A function as num_enum derives it.
abbrev derived : ℕ → Option PatternColour
derived n =
    if n == 0
    then some red
    else if n == 1
    then some green
    else if n == 2
    then some blue
    else if n == 255
    then some unknown
    else none

derived-IsDerived : IsDerived derived
derived-IsDerived = record { knows = knows; sound = sound }
  where
    knows : (c : PatternColour) → derived (colour_code c) ≡ some c
    knows red = refl
    knows green = refl
    knows blue = refl
    knows unknown = refl

    sound : (n : ℕ) (c : PatternColour) → derived n ≡ some c → colour_code c ≡ n
    sound n red e = ground arith
    sound n green e = ground arith
    sound n blue e = ground arith
    sound n unknown e = ground arith

abbrev eight : List PatternColour
eight = red ∷ green ∷ green ∷ blue ∷ red ∷ green ∷ green ∷ blue ∷ []

-- `test_pattern_try_from`
valid_bayer : try_from derived (0 ∷ 1 ∷ 1 ∷ 2 ∷ []) ≡ ok rggb
unfolding try_from try_bayer
valid_bayer = refl

invalid_bayer : try_from derived (1 ∷ 1 ∷ 0 ∷ 2 ∷ []) ≡ err other
unfolding try_from try_bayer
invalid_bayer = refl

valid_list : try_from derived (codes eight) ≡ ok (non_rgb22 eight)
unfolding try_from take_colours
valid_list = refl

invalid_list : try_from derived (0 ∷ 1 ∷ 100 ∷ 2 ∷ 0 ∷ 1 ∷ 1 ∷ 2 ∷ []) ≡ err other
unfolding try_from take_colours
invalid_list = refl

-- The eight colours stand in rows of six.
colour_at-try_from_example : code_of (colour_at (non_rgb22 eight) (1, 1)) ≡ ok 2
colour_at-try_from_example =
    colour_at-try_from derived (codes eight) (non_rgb22 eight) 1 1 derived-IsDerived valid_list

no_colour_at : colour_at (non_rgb22 eight) (2, 1) ≡ panic
unfolding colour_at width height pattern index
no_colour_at = refl
