-- ===== src/Tiff/Entry/Rationals.antt =====
-- An unsigned number out of an entry of rationals.
use libopenraw.Prelude.{
  ℕ, ◌/◌, ◌^◌, ◌<◌, ◌≡◌, refl, sym, List, ◌++◌, length-append, drop-length, ◌==◌, ltb, lt→ltb,
  gt→leb, if◌then◌else◌, some, ok, panic, ◌>>◌, require, arith,
}
use libopenraw.Io.{ByteOrder, ByteOrderCrate, IsByteOrder, u32_bytes}
use libopenraw.Tiff.Exif.{tag_type}
use libopenraw.Tiff.Entry.{Entry, as_slice, read_rational, uint_at, uint_value_at_index}
use libopenraw.Tiff.Entry.Arrays.{slice_from_lem}
use libopenraw.Tiff.Entry.Values.{length-u32_bytes}

module _ (c : ByteOrderCrate) (laws : IsByteOrder c) (o : ByteOrder) where
  read_rational-u32_bytes :
      (num denom : ℕ) (rest : List ℕ)
      → num < 2 ^ 32
      → denom < 2 ^ 32
      → read_rational c o (u32_bytes o num ++ (u32_bytes o denom ++ rest)) ≡ ok (num, denom)
  unfolding read_rational
  read_rational-u32_bytes num denom rest small small' =
      let whole : List ℕ = u32_bytes o num ++ (u32_bytes o denom ++ rest) in
      let four = length-u32_bytes o num in
      rw
        (
          laws.reads_u32 o num (u32_bytes o denom ++ rest) small,
          slice_from_lem whole 4
              (omega (arith, length-append (u32_bytes o num) (u32_bytes o denom ++ rest), four)),
          drop-length (u32_bytes o num) (u32_bytes o denom ++ rest) 4 (sym four),
          laws.reads_u32 o denom rest small',
        )
        refl

  quotient :
      (num denom : ℕ)
      → (require (ltb 0 denom) >> ok (some (num / denom)))
        ≡ (if denom == 0 then panic else ok (some (num / denom)))
  quotient num denom = ground arith

  -- With a byte order that does what the crate documents: for an entry of the type RATIONAL and any
  -- index below its count, `uint_value_at_index` divides the first rational of the data, and panics
  -- where its denominator is 0.
  pub uint_value_at_index-rational :
      (e : Entry) (index num denom : ℕ) (rest : List ℕ)
      → e.type_ ≡ 5
      → index < e.count
      → num < 2 ^ 32
      → denom < 2 ^ 32
      → as_slice e.data_bytes ≡ u32_bytes o num ++ (u32_bytes o denom ++ rest)
      → uint_value_at_index c o e index ≡ (if denom == 0 then panic else ok (some (num / denom)))
  unfolding uint_value_at_index uint_at tag_type
  uint_value_at_index-rational e index num denom rest kind inside small small' written =
      rw
        (
          gt→leb e.count index inside,
          kind,
          lt→ltb 0 e.count (omega (arith, inside)),
          written,
          slice_from_lem (u32_bytes o num ++ (u32_bytes o denom ++ rest)) 0 (omega arith),
          read_rational-u32_bytes num denom rest small small',
        )
        (quotient num denom)
