-- ===== src/Tiff/Dir/Written.antt =====
-- A directory that was written is read back.
use libopenraw.Prelude.{
  ℕ, ◌+◌, ◌^◌, ◌≤◌, ◌<◌, ◌≡◌, refl, sym, ap, ◌∙◌, subst, true, false, List, [], ◌∷◌, ◌++◌,
  append-nil, length-append, length, length-drop, drop, take-length, drop-length, drop-drop, le→leb,
  ok, arith,
}
use libopenraw.Io.{
  ByteOrder, ByteOrderCrate, IsByteOrder, u16_bytes, u32_bytes, View, view_read, view_u16, view_u32,
}
use libopenraw.Tiff.Entry.{Entry, new_entry, data_size, is_inline, with_loaded}
use libopenraw.Tiff.Entry.Values.{length-u16_bytes, length-u32_bytes}
use libopenraw.Tiff.Dir.{insert}

-- The 12 bytes of an entry, as numbers and the 4 bytes of its value.
pub record Field : Type 0 where
  pub id : ℕ
  pub type_ : ℕ
  pub count : ℕ
  pub value : List ℕ

pub record IsField (f : Field) : Type 0 where
  pub id_fits : f.id < 2 ^ 16
  pub type_fits : f.type_ < 2 ^ 16
  pub count_fits : f.count < 2 ^ 32
  pub four : length f.value ≡ 4

abbrev pub field_entry : Field → Entry
field_entry f = new_entry f.id f.type_ f.count f.value

-- The entry that a field stands for: its value is the data, where that has 4 bytes at most, or the
-- offset of the data in the file.
pub data IsStored (o : ByteOrder) (base_offset : ℕ) (bytes : List ℕ) (f : Field)
    : Entry → Type 0 where
  within : is_inline (field_entry f) ≡ true → IsStored o base_offset bytes f (field_entry f)
  elsewhere :
      (offset : ℕ) (d rest : List ℕ)
      → is_inline (field_entry f) ≡ false
      → offset < 2 ^ 32
      → f.value ≡ u32_bytes o offset
      → offset + base_offset ≤ length bytes
      → drop (offset + base_offset) bytes ≡ d ++ rest
      → length d ≡ data_size (field_entry f)
      → IsStored o base_offset bytes f (with_loaded (field_entry f) offset d)

abbrev pub field_bytes : ByteOrder → Field → List ℕ
field_bytes o f = u16_bytes o f.id ++ (u16_bytes o f.type_ ++ (u32_bytes o f.count ++ f.value))

abbrev pub fields_bytes : ByteOrder → List (Field × Entry) → List ℕ
fields_bytes o [] = []
fields_bytes o (p ∷ ps) = field_bytes o p.0 ++ fields_bytes o ps

-- The entries by their tag; a later one of the same tag takes the place of an earlier one.
abbrev pub insert_all : List (Field × Entry) → List (ℕ × Entry) → List (ℕ × Entry)
insert_all [] m = m
insert_all (p ∷ ps) m = insert_all ps (insert p.1.id p.1 m)

module _ (bytes : List ℕ) where
  abbrev pub at : ℕ → View
  at p = record { bytes = bytes; pos = p }

  pub view_read-at :
      (p n : ℕ) (d rest : List ℕ)
      → length d ≡ n
      → p + n ≤ length bytes
      → drop p bytes ≡ d ++ rest
      → view_read n (at p) ≡ ok (d, at (p + n))
  unfolding view_read
  view_read-at p n d rest size fits e =
      rw (le→leb (p + n) (length bytes) fits, e, take-length d rest n (sym size)) refl

  pub fits_lem :
      (p n : ℕ) (d rest : List ℕ)
      → 1 ≤ n
      → length d ≡ n
      → drop p bytes ≡ d ++ rest
      → p + n ≤ length bytes
  fits_lem p n d rest some size e =
      omega (arith, some, size, ap length e, length-drop p bytes, length-append d rest)

  pub behind :
      (p n : ℕ) (d rest : List ℕ)
      → length d ≡ n
      → drop p bytes ≡ d ++ rest
      → drop (p + n) bytes ≡ rest
  behind p n d rest size e = drop-drop bytes p n ∙ ap (drop n) e ∙ drop-length d rest n (sym size)

  module _ (c : ByteOrderCrate) (laws : IsByteOrder c) (o : ByteOrder) where
    pub view_u16-at :
        (p x : ℕ) (rest : List ℕ)
        → x < 2 ^ 16
        → drop p bytes ≡ u16_bytes o x ++ rest
        → (view_u16 c o (at p) ≡ ok (x, at (p + 2))) × (drop (p + 2) bytes ≡ rest)
    unfolding view_u16
    view_u16-at p x rest small e =
        let size = length-u16_bytes o x in
        let fits = fits_lem p 2 (u16_bytes o x) rest (omega arith) size e in
        let exact : c.read_u16 o (u16_bytes o x) ≡ ok x =
          subst (λ t. c.read_u16 o t ≡ ok x) (append-nil (u16_bytes o x))
            (laws.reads_u16 o x [] small) in
        (
          rw (view_read-at p 2 (u16_bytes o x) rest size fits e, exact) refl,
          behind p 2 (u16_bytes o x) rest size e,
        )

    pub view_u32-at :
        (p x : ℕ) (rest : List ℕ)
        → x < 2 ^ 32
        → drop p bytes ≡ u32_bytes o x ++ rest
        → (view_u32 c o (at p) ≡ ok (x, at (p + 4))) × (drop (p + 4) bytes ≡ rest)
    unfolding view_u32
    view_u32-at p x rest small e =
        let size = length-u32_bytes o x in
        let fits = fits_lem p 4 (u32_bytes o x) rest (omega arith) size e in
        let exact : c.read_u32 o (u32_bytes o x) ≡ ok x =
          subst (λ t. c.read_u32 o t ≡ ok x) (append-nil (u32_bytes o x))
            (laws.reads_u32 o x [] small) in
        (
          rw (view_read-at p 4 (u32_bytes o x) rest size fits e, exact) refl,
          behind p 4 (u32_bytes o x) rest size e,
        )
