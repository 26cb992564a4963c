-- ===== src/Tiff/Exif.antt =====
-- src/tiff/exif.rs: the types of an entry.
use libopenraw.Prelude.{
  ℕ, ◌-◌, not, ◌&&◌, ◌||◌, ◌==◌, ltb, if◌then◌else◌, Option, none, some, List, [], ◌∷◌, get_elem?,
}

pub data TagType : Type 0 where
  byte ascii short long rational sbyte undefined sshort slong srational float double invalid
        error_ :
      TagType

abbrev pub tag_types : List TagType
tag_types =
    byte ∷ ascii ∷ short ∷ long ∷ rational ∷ sbyte ∷ undefined ∷ sshort ∷ slong ∷ srational ∷ float
    ∷ double ∷ invalid ∷ []

-- The code of a type is an `i16`; a negative one is no type, and neither is its bit pattern.
unfoldable pub tag_type : ℕ → Option TagType
tag_type value =
    if (value == 0) || (ltb 13 value && not (value == 10000))
    then none
    else (if value == 10000 then some error_ else get_elem? tag_types (value - 1))

unfoldable pub tag_unit_size : TagType → ℕ
tag_unit_size short = 2
tag_unit_size sshort = 2
tag_unit_size long = 4
tag_unit_size slong = 4
tag_unit_size float = 4
tag_unit_size rational = 8
tag_unit_size srational = 8
tag_unit_size double = 8
tag_unit_size _ = 1
