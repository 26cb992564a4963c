-- ===== src/Tiff/Dir/Examples.antt =====
-- Small files of directories.
use libopenraw.Prelude.{
  ℕ, ◌<◌, ◌≡◌, ◌≢◌, ◌⊎◌, inl, refl, List, [], ◌∷◌, ok, panic, All, sym, ap, ◌∙◌, inr, err, Result,
  Safely, arith,
}
use libopenraw.Container.{little}
use libopenraw.Io.{little_endian, View, seek, view_read, view_u16, view_u32, endian_of}
use libopenraw.Io.ByteReader.{byte_reader, byte_reader-IsByteOrder}
use libopenraw.Tiff.Exif.{tag_type, tag_unit_size}
use libopenraw.Tiff.Entry.{Entry, new_entry, is_inline, data_size, or_invalid, with_loaded}
use libopenraw.Tiff.Dir.{Dir, read_entries, read_dir, with_dir, dirs_from}
use libopenraw.Tiff.Dir.Numbers.{HasNumbers, read_dir-HasNumbers}
use libopenraw.Tiff.Dir.Written.{Field, field_entry, within, elsewhere, insert_all}
use libopenraw.Tiff.Dir.RoundTrip.{IsWritten, read_dir-fields_bytes}
use libopenraw.Tiff.Dir.Chain.{dirs_from_cycle, dirs_from_rounds}

-- A directory with no entries, that has itself as the next.
abbrev own_next : View
own_next = record {
  bytes = 0x49 ∷ 0x49 ∷ 0x2a ∷ 0 ∷ 8 ∷ 0 ∷ 0 ∷ 0 ∷ 0 ∷ 0 ∷ 8 ∷ 0 ∷ 0 ∷ 0 ∷ [];
  pos = 0;
}

own_next-read :
    (offset : ℕ)
    → offset ≡ 8
    → (offset ≢ 0)
      × (dir : Dir) × (read_dir byte_reader little_endian 0 own_next offset ≡ ok dir)
      × (dir.next ≡ 8)
unfolding read_dir seek view_read view_u16 view_u32 read_entries endian_of
own_next-read offset e =
    rw e
      ((omega arith), (record { endian = _; entries = []; next = 8; mnote_offset = 0 }), refl, refl)

dirs_from_cycle_example : dirs_from byte_reader little_endian own_next panic 1000 8 [] ≡ panic
dirs_from_cycle_example =
    dirs_from_cycle byte_reader little_endian own_next (λ offset. offset ≡ 8) own_next-read panic
      1000 8 [] refl

-- A directory at the byte 8 with no entries, and the last one behind it.
abbrev two_dirs : View
two_dirs = record {
  bytes =
      0x49 ∷ 0x49 ∷ 0x2a ∷ 0 ∷ 8 ∷ 0 ∷ 0 ∷ 0 ∷ 0 ∷ 0 ∷ 14 ∷ 0 ∷ 0 ∷ 0 ∷ 0 ∷ 0 ∷ 0 ∷ 0 ∷ 0 ∷ 0 ∷ [];
  pos = 0;
}

abbrev empty_dir : ℕ → Dir
empty_dir next = record { endian = little; entries = []; next = next; mnote_offset = 0 }

two_dirs-first : read_dir byte_reader little_endian 0 two_dirs 8 ≡ ok (empty_dir 14)
unfolding read_dir seek view_read view_u16 view_u32 read_entries endian_of
two_dirs-first = refl

two_dirs-last : read_dir byte_reader little_endian 0 two_dirs 14 ≡ ok (empty_dir 0)
unfolding read_dir seek view_read view_u16 view_u32 read_entries endian_of
two_dirs-last = refl

abbrev next_of : Result Dir → ℕ
next_of (ok dir) = dir.next
next_of (err code) = 0
next_of panic = 0

two_dirs-forward :
    (offset : ℕ) (dir : Dir)
    → (offset ≡ 8) ⊎ (offset ≡ 14)
    → read_dir byte_reader little_endian 0 two_dirs offset ≡ ok dir
    → (dir.next ≡ 0) ⊎ ((offset < dir.next) × ((dir.next ≡ 8) ⊎ (dir.next ≡ 14)))
two_dirs-forward offset dir (inl first) e =
    let next : 14 ≡ dir.next =
      ap next_of
        (sym two_dirs-first ∙ ap (read_dir byte_reader little_endian 0 two_dirs) (sym first) ∙ e) in
    inr (omega (arith, first, next), inr (sym next))
two_dirs-forward offset dir (inr last) e = inl (
    sym (
      ap next_of
        (sym two_dirs-last ∙ ap (read_dir byte_reader little_endian 0 two_dirs) (sym last) ∙ e)))

dirs_from_rounds_example :
    dirs_from byte_reader little_endian two_dirs panic 16 8 []
    ≡ dirs_from byte_reader little_endian two_dirs (ok []) 20 8 []
dirs_from_rounds_example =
    dirs_from_rounds byte_reader little_endian two_dirs (λ offset. (offset ≡ 8) ⊎ (offset ≡ 14))
      two_dirs-forward panic (ok []) 16 20 8 [] (inl refl) (omega arith) (omega arith)

-- What the loop returns: both directories.
two_dirs-dirs :
    dirs_from byte_reader little_endian two_dirs panic 16 8 []
    ≡ ok (empty_dir 14 ∷ empty_dir 0 ∷ [])
unfolding dirs_from with_dir read_dir seek view_read view_u16 view_u32 read_entries endian_of
two_dirs-dirs = refl

-- A directory with a width of 5 in its value, and two offsets at the byte 38.
abbrev two_entries : List ℕ
two_entries =
    0x49 ∷ 0x49 ∷ 0x2a ∷ 0 ∷ 8 ∷ 0 ∷ 0 ∷ 0 ∷ 2 ∷ 0 ∷ 0 ∷ 1 ∷ 3 ∷ 0 ∷ 1 ∷ 0 ∷ 0 ∷ 0 ∷ 5 ∷ 0 ∷ 0 ∷ 0
    ∷ 0x11 ∷ 1 ∷ 4 ∷ 0 ∷ 2 ∷ 0 ∷ 0 ∷ 0 ∷ 38 ∷ 0 ∷ 0 ∷ 0 ∷ 0 ∷ 0 ∷ 0 ∷ 0 ∷ 1 ∷ 0 ∷ 0 ∷ 0 ∷ 2 ∷ 0 ∷ 0
    ∷ 0 ∷ []

abbrev width_field : Field
width_field = record { id = 0x100; type_ = 3; count = 1; value = 5 ∷ 0 ∷ 0 ∷ 0 ∷ [] }

abbrev strips_field : Field
strips_field = record { id = 0x111; type_ = 4; count = 2; value = 38 ∷ 0 ∷ 0 ∷ 0 ∷ [] }

abbrev strips : List ℕ
strips = 1 ∷ 0 ∷ 0 ∷ 0 ∷ 2 ∷ 0 ∷ 0 ∷ 0 ∷ []

abbrev fields : List (Field × Entry)
fields =
    (width_field, field_entry width_field)
    ∷ (strips_field, with_loaded (field_entry strips_field) 38 strips)
    ∷ []

fields-IsWritten :
    All (IsWritten two_entries byte_reader byte_reader-IsByteOrder little_endian 0) fields
unfolding is_inline data_size or_invalid tag_type tag_unit_size new_entry
fields-IsWritten = (
  (
    record {
      id_fits = omega arith;
      type_fits = omega arith;
      count_fits = omega arith;
      four = refl;
    },
    within refl,
  ),
  (
    (
      record {
        id_fits = omega arith;
        type_fits = omega arith;
        count_fits = omega arith;
        four = refl;
      },
      elsewhere 38 strips [] refl (omega arith) refl (omega arith) refl refl,
    ),
    tt,
  ),
)

read_dir-fields_bytes_example :
    read_dir byte_reader little_endian 0 (record { bytes = two_entries; pos = 0 }) 8
    ≡ ok (record {
      endian = endian_of little_endian;
      entries = insert_all fields [];
      next = 0;
      mnote_offset = 0;
    })
read_dir-fields_bytes_example =
    read_dir-fields_bytes two_entries byte_reader byte_reader-IsByteOrder little_endian 0 fields 8 0
      0 strips (omega arith) (omega arith) fields-IsWritten refl

read_dir-HasNumbers_example :
    Safely
      (λ dir. All (HasNumbers byte_reader byte_reader-IsByteOrder little_endian) dir.entries)
      (read_dir byte_reader little_endian 0 (record { bytes = two_entries; pos = 0 }) 8)
read_dir-HasNumbers_example =
    read_dir-HasNumbers byte_reader byte_reader-IsByteOrder little_endian 0
      (record { bytes = two_entries; pos = 0 }) 8
