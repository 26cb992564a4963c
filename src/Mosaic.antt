-- ===== src/Mosaic.antt =====
-- src/mosaic.rs: the pattern of the colour filter array. The function `try_from_primitive` is what
-- the num_enum crate derives for `PatternColour`; it returns none where it fails. The texts of
-- `Display` are left out.
pub mod Codes
pub mod Lookup
mod Examples
use libopenraw.Prelude.{
  ℕ, zero, suc, ◌+◌, ◌*◌, Bool, true, false, ◌&&◌, Option, none, some, List, [], ◌∷◌, ◌==◌, ltb,
  if◌then◌else◌, length, map, Result, ok, err, panic, other, ◌>>=◌, ◌>>◌, require, index,
}

pub data PatternType : Type 0 where
  none_type non_rgb22_type rggb_type gbrg_type bggr_type grbg_type : PatternType

pub data PatternColour : Type 0 where
  red green blue unknown : PatternColour

pub data Pattern : Type 0 where
  empty rggb gbrg bggr grbg : Pattern
  non_rgb22 : List PatternColour → Pattern

-- `PatternType::from` and `pattern_type`.
unfoldable pub pattern_type : Pattern → PatternType
pattern_type empty = none_type
pattern_type (non_rgb22 p) = non_rgb22_type
pattern_type rggb = rggb_type
pattern_type gbrg = gbrg_type
pattern_type bggr = bggr_type
pattern_type grbg = grbg_type

-- `colour as u8`
abbrev pub colour_code : PatternColour → ℕ
colour_code red = 0
colour_code green = 1
colour_code blue = 2
colour_code unknown = 255

-- The characters R, G and B.
unfoldable pub to_char : PatternColour → Result ℕ
to_char red = ok 82
to_char green = ok 71
to_char blue = ok 66
to_char unknown = panic

abbrev pub is_same : List ℕ → List ℕ → Bool
is_same [] [] = true
is_same [] (y ∷ ys) = false
is_same (x ∷ xs) [] = false
is_same (x ∷ xs) (y ∷ ys) = (x == y) && is_same xs ys

abbrev pub codes : List PatternColour → List ℕ
codes cs = map colour_code cs

unfoldable pub width : Pattern → ℕ
width empty = 0
width rggb = 2
width gbrg = 2
width bggr = 2
width grbg = 2
width (non_rgb22 p) = 6

unfoldable pub height : Pattern → ℕ
height empty = 0
height rggb = 2
height gbrg = 2
height bggr = 2
height grbg = 2
height (non_rgb22 p) = 6

unfoldable pub pattern : Pattern → List PatternColour
pattern empty = []
pattern rggb = red ∷ green ∷ green ∷ blue ∷ []
pattern gbrg = green ∷ blue ∷ red ∷ green ∷ []
pattern bggr = blue ∷ green ∷ green ∷ red ∷ []
pattern grbg = green ∷ red ∷ blue ∷ green ∷ []
pattern (non_rgb22 p) = p

-- `pattern[(x, y)]`
unfoldable pub colour_at : Pattern → ℕ × ℕ → Result PatternColour
colour_at p i = do
  require (ltb i.0 (width p))
  require (ltb i.1 (height p))
  index (pattern p) (i.1 * width p + i.0)

-- The four patterns of 2 by 2, in the order in which they are compared.
unfoldable pub try_bayer : List ℕ → Result Pattern
try_bayer v =
    if is_same v (codes (red ∷ green ∷ green ∷ blue ∷ []))
    then ok rggb
    else if is_same v (codes (green ∷ blue ∷ red ∷ green ∷ []))
    then ok gbrg
    else if is_same v (codes (green ∷ red ∷ blue ∷ green ∷ []))
    then ok grbg
    else if is_same v (codes (blue ∷ green ∷ green ∷ red ∷ []))
    then ok bggr
    else err other

-- The colours go on until one fails.
abbrev pub keep : Option PatternColour → List PatternColour → List PatternColour
keep none rest = []
keep (some colour) rest = colour ∷ rest

module _ (try_from_primitive : ℕ → Option PatternColour) where
  -- The colours up to the first failure.
  unfoldable pub take_colours : List ℕ → List PatternColour
  take_colours [] = []
  take_colours (c ∷ rest) = keep (try_from_primitive c) (take_colours rest)

  -- `Pattern::try_from`; the error is a text.
  unfoldable pub try_from : List ℕ → Result Pattern
  try_from v =
      if length v == 4
      then try_bayer v
      else (if length (take_colours v) == length v
          then ok (non_rgb22 (take_colours v))
          else err other)
