-- ===== src/Tiff/Entry.antt =====
-- src/tiff/entry.rs: an entry of a directory, its data and its values.
pub mod Arrays
pub mod Values
pub mod Rationals
mod Examples
use libopenraw.Prelude.{
  ℕ, zero, suc, ◌+◌, ◌-◌, ◌*◌, ◌/◌, Bool, true, false, List, [], ◌∷◌, ◌==◌, leb, ltb, if◌then◌else◌,
  Option, none, some, map, length, drop, Result, ok, err, panic, format_error, already_inited,
  ◌>>=◌, ◌>>◌, reject_if, require,
}
use libopenraw.Container.{Endian, unset, big, little}
use libopenraw.Io.{ByteOrder, big_endian, little_endian, ByteOrderCrate, View, seek, view_read}
use libopenraw.Tiff.Exif.{TagType, short, long, rational, invalid, tag_type, tag_unit_size}

pub data DataBytes : Type 0 where
  inline external : List ℕ → DataBytes
  at_offset : ℕ → List ℕ → DataBytes

unfoldable pub as_slice : DataBytes → List ℕ
as_slice (inline b) = b
as_slice (external v) = v
as_slice (at_offset o v) = v

-- `type_` and `id` are 16 bits, `count` 32.
pub record Entry : Type 0 where
  pub id : ℕ
  pub type_ : ℕ
  pub count : ℕ
  pub data_bytes : DataBytes

unfoldable pub new_entry : ℕ → ℕ → ℕ → List ℕ → Entry
new_entry id type_ count bytes = record {
  id = id;
  type_ = type_;
  count = count;
  data_bytes = inline bytes;
}

unfoldable pub or_invalid : Option TagType → TagType
or_invalid none = invalid
or_invalid (some t) = t

-- The bytes that the type and the count ask for.
unfoldable pub data_size : Entry → ℕ
data_size e = tag_unit_size (or_invalid (tag_type e.type_)) * e.count

unfoldable pub is_inline : Entry → Bool
is_inline e = leb (data_size e) 4

unfoldable pub load_data_impl : Entry → ℕ → View → Result (List ℕ)
load_data_impl e offset view = do
  view' ← seek offset view
  reject_if (ltb (length view.bytes - offset) (data_size e)) format_error
  (bytes, view'') ← view_read (data_size e) view'
  ok bytes

unfoldable pub with_loaded : Entry → ℕ → List ℕ → Entry
with_loaded e offset bytes =
    if e.type_ == 7
    then record e { data_bytes = at_offset offset bytes }
    else record e { data_bytes = external bytes }

module _ (c : ByteOrderCrate) where
  -- `Entry::load_data`; the position that it leaves is not used.
  unfoldable pub load_data : ByteOrder → ℕ → View → Entry → Result (ℕ × Entry)
  load_data o base_offset view e = elim e.data_bytes [
    | external v ↦ err already_inited
    | inline b ↦ load_from b
    | at_offset k v ↦ load_from v
  ]
    where
      load_from : List ℕ → Result (ℕ × Entry)
      load_from slice = do
        offset ← c.read_u32 o slice
        bytes ← load_data_impl e (offset + base_offset) view
        ok (length bytes, with_loaded e offset bytes)

-- `match endian { Big => .., Little => .., _ => unreachable!() }`
unfoldable pub by_endian : {A : Type 0} → Endian → (ByteOrder → Result A) → Result A
by_endian big f = f big_endian
by_endian little f = f little_endian
by_endian unset f = panic

-- `&data[from..]`
unfoldable pub slice_from : List ℕ → ℕ → Result (List ℕ)
slice_from xs from = do require (leb from (length xs)); ok (drop from xs)

-- `left` units from `index` on.
unfoldable pub read_units :
    {A : Type 0} → (List ℕ → Result A) → ℕ → List ℕ → ℕ → ℕ → Result (List A)
read_units read unit slice zero index = ok []
read_units read unit slice (suc left) index = do
  from ← slice_from slice (unit * index)
  v ← read from
  vs ← read_units read unit slice left (index + 1)
  ok (v ∷ vs)

-- `u32::from` of a `Rational`
unfoldable pub rational_u32 : ℕ × ℕ → ℕ
rational_u32 r = if r.1 == 0 then 0 else r.0 / r.1

module _ (c : ByteOrderCrate) where
  -- `Rational::read`: numerator and denominator.
  unfoldable pub read_rational : ByteOrder → List ℕ → Result (ℕ × ℕ)
  read_rational o buf = do
    num ← c.read_u32 o buf
    rest ← slice_from buf 4
    denom ← c.read_u32 o rest
    ok (num, denom)

  unfoldable pub uint_values : Option TagType → Entry → Endian → Result (Option (List ℕ))
  uint_values (some short) e endian = do
    vs ←
        read_units (λ from. by_endian endian (λ o. c.read_u16 o from)) 2 (as_slice e.data_bytes)
          e.count 0
    ok (some vs)
  uint_values (some long) e endian = do
    vs ←
        read_units (λ from. by_endian endian (λ o. c.read_u32 o from)) 4 (as_slice e.data_bytes)
          e.count 0
    ok (some vs)
  uint_values (some rational) e endian = do
    vs ←
        read_units (λ from. by_endian endian (λ o. read_rational o from)) 8 (as_slice e.data_bytes)
          e.count 0
    ok (some (map rational_u32 vs))
  uint_values _ e endian = ok none

  -- `Entry::uint_value_array`
  unfoldable pub uint_value_array : Entry → Endian → Result (Option (List ℕ))
  uint_value_array e endian = uint_values (tag_type e.type_) e endian

  unfoldable pub uint_at : Option TagType → ByteOrder → Entry → ℕ → Result (Option ℕ)
  uint_at (some short) o e index = do
    from ← slice_from (as_slice e.data_bytes) (2 * index)
    v ← c.read_u16 o from
    ok (some v)
  uint_at (some long) o e index = do
    from ← slice_from (as_slice e.data_bytes) (4 * index)
    v ← c.read_u32 o from
    ok (some v)
  uint_at (some rational) o e index =
      if ltb 0 e.count
      then (do
        from ← slice_from (as_slice e.data_bytes) 0
        r ← read_rational o from
        require (ltb 0 r.1)
        ok (some (r.0 / r.1)))
      else ok none
  uint_at _ o e index = ok none

  -- `Entry::uint_value_at_index`: the index does not count for a rational, and a denominator of 0
  -- panics.
  unfoldable pub uint_value_at_index : ByteOrder → Entry → ℕ → Result (Option ℕ)
  uint_value_at_index o e index =
      if leb e.count index then ok none else uint_at (tag_type e.type_) o e index
