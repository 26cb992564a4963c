-- ===== src/Tiff/Entry/Arrays.antt =====
-- The numbers of an entry: reading them does not panic where the data is there, and gives back what
-- was written.
use libopenraw.Prelude.{
  ℕ, zero, suc, ◌+◌, ◌*◌, ◌≤◌, ◌≡◌, ◌≢◌, ◌⊎◌, inl, inr, refl, ap, ◌∙◌, List, [], ◌∷◌, length,
  length-drop, length-map, map, drop, Option, none, some, Result, ok, le→leb, arith,
}
use libopenraw.Container.{Endian, unset, big, little}
use libopenraw.Io.{ByteOrder, big_endian, little_endian, ByteOrderCrate, IsByteOrder}
use libopenraw.Tiff.Exif.{
  TagType, byte, ascii, short, long, rational, sbyte, undefined, sshort, slong, srational, float,
  double, invalid, error_, tag_type, tag_unit_size,
}
use libopenraw.Tiff.Entry.{
  Entry, as_slice, or_invalid, data_size, by_endian, slice_from, read_units, read_rational,
  rational_u32, uint_values, uint_value_array,
}

pub slice_from_lem :
    (xs : List ℕ) (from : ℕ) → from ≤ length xs → slice_from xs from ≡ ok (drop from xs)
unfolding slice_from
slice_from_lem xs from h = rw (le→leb from (length xs) h) refl

module _ {A : Type 0} (read : List ℕ → Result A) (unit : ℕ) where
  read_units-returns :
      (total : (bytes : List ℕ) → unit ≤ length bytes → (a : A) × (read bytes ≡ ok a))
      (slice : List ℕ) (left index : ℕ)
      → unit * (index + left) ≤ length slice
      → (vs : List A) × (read_units read unit slice left index ≡ ok vs) × (length vs ≡ left)
  unfolding read_units
  read_units-returns total slice zero index h = ([], refl, refl)
  read_units-returns total slice (suc left) index h =
      let split : unit * (index + suc left) ≡ unit * index + unit + unit * left = grind arith in
      let next : unit * (index + 1 + left) ≡ unit * index + unit + unit * left = grind arith in
      let there : unit * index ≤ length slice = omega (arith, h, split) in
      let (v, first) =
        total (drop (unit * index) slice)
          (omega (arith, h, split, length-drop (unit * index) slice)) in
      let (vs, others, count) =
        read_units-returns total slice left (index + 1) (omega (arith, h, split, next)) in
      (v ∷ vs, rw (slice_from_lem slice (unit * index) there, first, others) refl, ap suc count)

by_endian-returns :
    {A : Type 0} (endian : Endian) (f : ByteOrder → Result A)
    → endian ≢ unset
    → ((o : ByteOrder) → (a : A) × (f o ≡ ok a))
    → (a : A) × (by_endian endian f ≡ ok a)
unfolding by_endian
by_endian-returns big f h total = total big_endian
by_endian-returns little f h total = total little_endian
by_endian-returns unset f h total = absurd (h refl)

-- As many values as the entry counts, where there are values.
abbrev pub HasCount : ℕ → Option (List ℕ) → Type 0
HasCount n none = Unit {0}
HasCount n (some vs) = length vs ≡ n

module _ (c : ByteOrderCrate) (laws : IsByteOrder c) where
  read_rational-returns :
      (o : ByteOrder) (bytes : List ℕ)
      → 8 ≤ length bytes
      → (r : ℕ × ℕ) × (read_rational c o bytes ≡ ok r)
  unfolding read_rational
  read_rational-returns o bytes h =
      let (num, first) = laws.returns_u32 o bytes (omega (arith, h)) in
      let (denom, second) =
        laws.returns_u32 o (drop 4 bytes) (omega (arith, h, length-drop 4 bytes)) in
      ((num, denom), rw (first, slice_from_lem bytes 4 (omega (arith, h)), second) refl)

  uint_values-returns :
      (t : Option TagType) (e : Entry) (endian : Endian)
      → endian ≢ unset
      → tag_unit_size (or_invalid t) * e.count ≤ length (as_slice e.data_bytes)
      → (r : Option (List ℕ)) × (uint_values c t e endian ≡ ok r) × HasCount e.count r
  unfolding uint_values tag_unit_size or_invalid
  uint_values-returns (some short) e endian set h =
      let (vs, read, count) =
        read_units-returns (λ from. by_endian endian (λ o. c.read_u16 o from)) 2
          (λ bytes k.
            by_endian-returns endian (λ o. c.read_u16 o bytes) set
              (λ o. laws.returns_u16 o bytes k))
          (as_slice e.data_bytes) e.count 0 (omega (arith, h)) in
      (some vs, rw read refl, count)
  uint_values-returns (some long) e endian set h =
      let (vs, read, count) =
        read_units-returns (λ from. by_endian endian (λ o. c.read_u32 o from)) 4
          (λ bytes k.
            by_endian-returns endian (λ o. c.read_u32 o bytes) set
              (λ o. laws.returns_u32 o bytes k))
          (as_slice e.data_bytes) e.count 0 (omega (arith, h)) in
      (some vs, rw read refl, count)
  uint_values-returns (some rational) e endian set h =
      let (vs, read, count) =
        read_units-returns (λ from. by_endian endian (λ o. read_rational c o from)) 8
          (λ bytes k.
            by_endian-returns endian (λ o. read_rational c o bytes) set
              (λ o. read_rational-returns o bytes k))
          (as_slice e.data_bytes) e.count 0 (omega (arith, h)) in
      (some (map rational_u32 vs), rw read refl, length-map rational_u32 vs ∙ count)
  uint_values-returns (some byte) e endian set h = (none, refl, tt)
  uint_values-returns (some ascii) e endian set h = (none, refl, tt)
  uint_values-returns (some sbyte) e endian set h = (none, refl, tt)
  uint_values-returns (some undefined) e endian set h = (none, refl, tt)
  uint_values-returns (some sshort) e endian set h = (none, refl, tt)
  uint_values-returns (some slong) e endian set h = (none, refl, tt)
  uint_values-returns (some srational) e endian set h = (none, refl, tt)
  uint_values-returns (some float) e endian set h = (none, refl, tt)
  uint_values-returns (some double) e endian set h = (none, refl, tt)
  uint_values-returns (some invalid) e endian set h = (none, refl, tt)
  uint_values-returns (some error_) e endian set h = (none, refl, tt)
  uint_values-returns none e endian set h = (none, refl, tt)

  -- With a byte order that does what the crate documents, and the byte order of the file known: for an
  -- entry that is marked as an error or has the data that its type and count ask for,
  -- `uint_value_array` does not panic, and the values that it gives are as many as the entry counts.
  pub uint_value_array-returns :
      (e : Entry) (endian : Endian)
      → endian ≢ unset
      → (e.type_ ≡ 10000) ⊎ (data_size e ≤ length (as_slice e.data_bytes))
      → (r : Option (List ℕ)) × (uint_value_array c e endian ≡ ok r) × HasCount e.count r
  unfolding uint_value_array data_size
  uint_value_array-returns e endian set (inr enough) =
      uint_values-returns (tag_type e.type_) e endian set enough
  uint_value_array-returns e endian set (inl failed) =
      (none, (rw failed (unfold uint_values tag_type in refl)), tt)
