-- ===== src/Tiff/Dir/RoundTrip.antt =====
-- Reading gives back the directory that was written.
use libopenraw.Prelude.{
  ℕ, ◌+◌, ◌-◌, ◌^◌, ◌≤◌, ◌<◌, ◌≡◌, refl, sym, ap, ◌∙◌, subst, List, [], ◌∷◌, ◌++◌, append_assoc,
  append-nil, length-drop, All, length, length-append, drop, lt→ltb, ge→ltb, ok, arith,
}
use libopenraw.Io.{ByteOrder, ByteOrderCrate, IsByteOrder, endian_of, u16_bytes, u32_bytes, seek}
use libopenraw.Tiff.Entry.{Entry, new_entry, data_size, load_data_impl, with_loaded, load_data}
use libopenraw.Tiff.Entry.Values.{length-u16_bytes}
use libopenraw.Tiff.Dir.{insert, or_error, load_entry, read_entry, read_entries, read_dir}
use libopenraw.Tiff.Dir.Written.{
  Field, IsField, field_entry, IsStored, within, elsewhere, field_bytes, fields_bytes, insert_all,
  at, view_read-at, behind, fits_lem, view_u16-at, view_u32-at,
}

module _ (bytes : List ℕ) (c : ByteOrderCrate) (laws : IsByteOrder c) (o : ByteOrder)
    (base_offset : ℕ) where
  load_data_impl-drop :
      (e : Entry) (p offset : ℕ) (d rest : List ℕ)
      → offset ≤ length bytes
      → drop offset bytes ≡ d ++ rest
      → length d ≡ data_size e
      → offset + data_size e ≤ length bytes
      → load_data_impl e offset (at bytes p) ≡ ok d
  unfolding load_data_impl seek
  load_data_impl-drop e p offset d rest inside there size fits =
      rw
        (
          ge→ltb (length bytes) offset inside,
          ge→ltb (length bytes - offset) (data_size e) (omega (arith, fits)),
          view_read-at bytes offset (data_size e) d rest size fits there,
        )
        refl

  load_entry-IsStored :
      (f : Field) (e : Entry) (p : ℕ)
      → IsStored o base_offset bytes f e
      → load_entry c o base_offset (at bytes p) (field_entry f) ≡ ok e
  unfolding load_entry
  load_entry-IsStored f e p (within small) = rw small refl
  load_entry-IsStored f e p (elsewhere offset d rest large fits value inside there size) =
      let read : c.read_u32 o f.value ≡ ok offset =
        subst (λ t. c.read_u32 o t ≡ ok offset) (append-nil (u32_bytes o offset) ∙ sym value)
          (laws.reads_u32 o offset [] fits) in
      let all : offset + base_offset + data_size (field_entry f) ≤ length bytes = omega (
        arith,
        size,
        inside,
        ap length there,
        length-drop (offset + base_offset) bytes,
        length-append d rest,
      ) in
      let loads : load_data c o base_offset (at bytes p) (field_entry f)
          ≡ ok (length d, with_loaded (field_entry f) offset d) =
        unfold load_data new_entry in
        rw
          (
            read,
            load_data_impl-drop (field_entry f) p (offset + base_offset) d rest inside there size
                all,
          )
          refl in
      rw (large, loads) (unfold or_error in refl)

  read_entry-field_bytes :
      (f : Field) (e : Entry) (p : ℕ) (rest : List ℕ)
      → IsField f
      → IsStored o base_offset bytes f e
      → drop p bytes ≡ field_bytes o f ++ rest
      → (read_entry c o base_offset (at bytes p) ≡ ok (e, at bytes (p + 2 + 2 + 4 + 4)))
        × (drop (p + 2 + 2 + 4 + 4) bytes ≡ rest)
  unfolding read_entry
  read_entry-field_bytes f e p rest field stored there =
      let start : drop p bytes
          ≡ u16_bytes o f.id
            ++ (u16_bytes o f.type_ ++ (u32_bytes o f.count ++ (f.value ++ rest))) =
        there
        ∙ append_assoc (u16_bytes o f.id) (u16_bytes o f.type_ ++ (u32_bytes o f.count ++ f.value))
            rest
        ∙ ap (λ t. u16_bytes o f.id ++ t)
            (append_assoc (u16_bytes o f.type_) (u32_bytes o f.count ++ f.value) rest
              ∙ ap (λ t. u16_bytes o f.type_ ++ t)
                  (append_assoc (u32_bytes o f.count) f.value rest)) in
      let (r1, d1) = view_u16-at bytes c laws o p f.id _ field.id_fits start in
      let (r2, d2) = view_u16-at bytes c laws o (p + 2) f.type_ _ field.type_fits d1 in
      let (r3, d3) = view_u32-at bytes c laws o (p + 2 + 2) f.count _ field.count_fits d2 in
      let fits = fits_lem bytes (p + 2 + 2 + 4) 4 f.value rest (omega arith) field.four d3 in
      (
        rw
            (
              r1,
              r2,
              r3,
              view_read-at bytes (p + 2 + 2 + 4) 4 f.value rest field.four fits d3,
              load_entry-IsStored f e (p + 2 + 2 + 4 + 4) stored,
            )
            refl,
        behind bytes (p + 2 + 2 + 4) 4 f.value rest field.four d3,
      )

  -- A field and the entry that it stands for.
  abbrev pub IsWritten : Field × Entry → Type 0
  IsWritten p = IsField p.0 × IsStored o base_offset bytes p.0 p.1

  read_entries-fields_bytes :
      (ps : List (Field × Entry)) (p : ℕ) (rest : List ℕ) (m : List (ℕ × Entry))
      → All IsWritten ps
      → drop p bytes ≡ fields_bytes o ps ++ rest
      → (q : ℕ) × (read_entries c o base_offset (length ps) (at bytes p) m
          ≡ ok (insert_all ps m, at bytes q))
        × (drop q bytes ≡ rest)
  unfolding read_entries
  read_entries-fields_bytes [] p rest m written there = (p, refl, there)
  read_entries-fields_bytes (w ∷ ps) p rest m written there =
      let (first, behind_it) =
        read_entry-field_bytes w.0 w.1 p (fields_bytes o ps ++ rest) written.0.0 written.0.1
          (there ∙ append_assoc (field_bytes o w.0) (fields_bytes o ps) rest) in
      let (q, others, left) =
        read_entries-fields_bytes ps (p + 2 + 2 + 4 + 4) rest (insert w.1.id w.1 m) written.1
          behind_it in
      (q, rw (first, others) refl, left)

  -- With a byte order that does what the crate documents: where a file has, at an offset, the count
  -- of fewer than 32768 entries, their fields, each with its data in the value or where the value
  -- points to, and the offset of the next directory, reading there gives a directory with these
  -- entries, in the order of their tags, and that next offset.
  pub read_dir-fields_bytes :
      (ps : List (Field × Entry)) (dir_offset next pos : ℕ) (rest : List ℕ)
      → length ps < 0x8000
      → next < 2 ^ 32
      → All IsWritten ps
      → drop dir_offset bytes
        ≡ u16_bytes o (length ps) ++ (fields_bytes o ps ++ (u32_bytes o next ++ rest))
      → read_dir c o base_offset (at bytes pos) dir_offset
        ≡ ok (record {
          endian = endian_of o;
          entries = insert_all ps [];
          next = next;
          mnote_offset = base_offset;
        })
  unfolding read_dir seek
  read_dir-fields_bytes ps dir_offset next pos rest few fits written there =
      let (count, d1) =
        view_u16-at bytes c laws o dir_offset (length ps) _ (omega (arith, few)) there in
      let (q, entries, d2) = read_entries-fields_bytes ps (dir_offset + 2) _ [] written d1 in
      let (last, d3) = view_u32-at bytes c laws o q next rest fits d2 in
      let inside : dir_offset ≤ length bytes = omega (
        arith,
        ap length there,
        length-drop dir_offset bytes,
        length-append (u16_bytes o (length ps)) (fields_bytes o ps ++ (u32_bytes o next ++ rest)),
        length-u16_bytes o (length ps),
      ) in
      rw
        (
          ge→ltb (length bytes) dir_offset inside,
          count,
          lt→ltb (length ps) 0x8000 few,
          entries,
          last,
        )
        refl
