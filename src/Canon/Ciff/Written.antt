-- ===== src/Canon/Ciff/Written.antt =====
-- A heap as its bytes.
use libopenraw.Prelude.{
  ℕ, ◌+◌, ◌-◌, ◌^◌, ◌≤◌, ◌<◌, ◌≡◌, refl, ◌∙◌, true, false, List, [], ◌∷◌, ◌++◌, append_assoc,
  length, drop, All, lt→ltb, Result, ok, arith,
}
use libopenraw.Io.{
  ByteOrder, endian_of, ByteOrderCrate, IsByteOrder, View, view_u16, view_u32, u16_bytes, u32_bytes,
}
use libopenraw.Tiff.Entry.Values.{by_endian-endian_of}
use libopenraw.Tiff.Dir.Written.{at, view_read-at, fits_lem, behind, view_u16-at, view_u32-at}
use libopenraw.Canon.Ciff.Tags.{Tag, from_tagcode}
use libopenraw.Canon.Ciff.{
  Record, in_rec, in_heap, RecordEntry, in_record, put, add_u32, endian_u16, endian_u32, read_value,
  record_from_view, with_record, read_records,
}

-- A record as it is written: its code of 16 bits, and its value. A position is written from the start
-- of the heap on.
pub record Written : Type 0 where
  pub code : ℕ
  pub value : Record

abbrev pub value_bytes : ByteOrder → ℕ → Record → List ℕ
value_bytes o base (in_rec bytes) = bytes
value_bytes o base (in_heap position len) = u32_bytes o len ++ u32_bytes o (position - base)

-- The value has the place that the code says, and a position is behind the start of the heap.
abbrev pub IsValue : ℕ → ℕ → Record → Type 0
IsValue base code (in_rec bytes) = (in_record code ≡ true) × (length bytes ≡ 8)
IsValue base code (in_heap position len) =
    (in_record code ≡ false) × (len < 2 ^ 32) × (position < 2 ^ 32) × (base ≤ position)

abbrev pub IsWritten : ℕ → Written → Type 0
IsWritten base w = (w.code < 2 ^ 16) × IsValue base w.code w.value

abbrev pub record_bytes : ByteOrder → ℕ → Written → List ℕ
record_bytes o base w = u16_bytes o w.code ++ value_bytes o base w.value

abbrev pub records_bytes : ByteOrder → ℕ → List Written → List ℕ
records_bytes o base [] = []
records_bytes o base (w ∷ ws) = record_bytes o base w ++ records_bytes o base ws

module _ (from_primitive : ℕ → Tag) where
  abbrev pub entry_of : Written → RecordEntry
  entry_of w = record { type_code = from_tagcode from_primitive w.code; value = w.value }

  -- The records by their tag: a later one of the same tag takes the place of an earlier one.
  abbrev pub put_all : List Written → List RecordEntry → List RecordEntry
  put_all [] records = records
  put_all (w ∷ ws) records =
      put_all ws (put (from_tagcode from_primitive w.code) (entry_of w) records)

module _ (bytes : List ℕ) (c : ByteOrderCrate) (laws : IsByteOrder c) (o : ByteOrder)
    (from_primitive : ℕ → Tag) where
  pub endian_u16-at :
      (p x : ℕ) (rest : List ℕ)
      → x < 2 ^ 16
      → drop p bytes ≡ u16_bytes o x ++ rest
      → (endian_u16 c from_primitive (endian_of o) (at bytes p) ≡ ok (x, at bytes (p + 2)))
        × (drop (p + 2) bytes ≡ rest)
  unfolding endian_u16
  endian_u16-at p x rest small there =
      let r = view_u16-at bytes c laws o p x rest small there in
      (by_endian-endian_of o (λ o. view_u16 c o (at bytes p)) ∙ r.0, r.1)

  pub endian_u32-at :
      (p x : ℕ) (rest : List ℕ)
      → x < 2 ^ 32
      → drop p bytes ≡ u32_bytes o x ++ rest
      → (endian_u32 c from_primitive (endian_of o) (at bytes p) ≡ ok (x, at bytes (p + 4)))
        × (drop (p + 4) bytes ≡ rest)
  unfolding endian_u32
  endian_u32-at p x rest small there =
      let r = view_u32-at bytes c laws o p x rest small there in
      (by_endian-endian_of o (λ o. view_u32 c o (at bytes p)) ∙ r.0, r.1)

  -- What a step returned, with the place behind it.
  pub record HasPassed {A : Type 0} (value : A) (rest : List ℕ) (m : Result (A × View))
      : Type 0 where
    pub place : ℕ
    pub returns : m ≡ ok (value, at bytes place)
    pub left : drop place bytes ≡ rest

  read_value-value_bytes :
      (base code p : ℕ) (value : Record) (rest : List ℕ)
      → IsValue base code value
      → drop p bytes ≡ value_bytes o base value ++ rest
      → HasPassed value rest (read_value c from_primitive (endian_of o) base code (at bytes p))
  unfolding read_value add_u32
  read_value-value_bytes base code p (in_rec data_) rest fits there = record {
    place = p + 8;
    returns =
        rw
          (
            fits.0,
            view_read-at bytes p 8 data_ rest fits.1
                (fits_lem bytes p 8 data_ rest (omega arith) fits.1 there) there,
          )
          refl;
    left = behind bytes p 8 data_ rest fits.1 there;
  }
  read_value-value_bytes base code p (in_heap position len) rest fits there =
      let (r1, d1) =
        endian_u32-at p len (u32_bytes o (position - base) ++ rest) fits.1
          (there ∙ append_assoc (u32_bytes o len) (u32_bytes o (position - base)) rest) in
      let (r2, d2) = endian_u32-at (p + 4) (position - base) rest (omega (arith, fits.2)) d1 in
      let back : position - base + base ≡ position = omega (arith, fits.3) in
      record {
        place = p + 4 + 4;
        returns = rw (fits.0, r1, r2, back, lt→ltb position (2 ^ 32) fits.2) refl;
        left = d2;
      }

  record_from_view-record_bytes :
      (base p : ℕ) (w : Written) (rest : List ℕ)
      → IsWritten base w
      → drop p bytes ≡ record_bytes o base w ++ rest
      → HasPassed
          (entry_of from_primitive w)
          rest
          (record_from_view c from_primitive (endian_of o) base (at bytes p))
  unfolding record_from_view
  record_from_view-record_bytes base p w rest fits there =
      let (r1, d1) =
        endian_u16-at p w.code (value_bytes o base w.value ++ rest) fits.0
          (there ∙ append_assoc (u16_bytes o w.code) (value_bytes o base w.value) rest) in
      let v = read_value-value_bytes base w.code (p + 2) w.value rest fits.1 d1 in
      record { place = v.place; returns = rw (r1, v.returns) refl; left = v.left }

  pub read_records-records_bytes :
      (base p : ℕ) (ws : List Written) (rest : List ℕ) (records : List RecordEntry)
      → All (IsWritten base) ws
      → drop p bytes ≡ records_bytes o base ws ++ rest
      → read_records c from_primitive (endian_of o) (length ws) base records (at bytes p)
        ≡ ok (put_all from_primitive ws records)
  unfolding read_records with_record
  read_records-records_bytes base p [] rest records fits there = refl
  read_records-records_bytes base p (w ∷ ws) rest records fits there =
      let r =
        record_from_view-record_bytes base p w (records_bytes o base ws ++ rest) fits.0
          (there ∙ append_assoc (record_bytes o base w) (records_bytes o base ws) rest) in
      rw (r.returns) (
        read_records-records_bytes base r.place ws rest
          (put (from_tagcode from_primitive w.code) (entry_of from_primitive w) records) fits.1
          r.left)
