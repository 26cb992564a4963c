-- ===== src/Canon/Ciff/Files.antt =====
-- src/canon/crw/ciff.rs and src/canon/crw/ciff/container.rs: the header of a file, and the way from it
-- to the specification of the picture. What the container keeps is computed from the file once, and
-- every step but the first seeks before it reads.
pub mod Chain
use libopenraw.Prelude.{
  ℕ, ◌-◌, ◌%◌, ◌^◌, ◌&&◌, Option, none, some, List, [], ◌∷◌, ◌==◌, leb, ltb, if◌then◌else◌, length,
  Result, ok, err, panic, format_error, ◌>>=◌, ◌>>◌, require, ℤ, pos, negsuc,
}
use libopenraw.Container.{Endian, big, little}
use libopenraw.Io.{ByteOrderCrate, View, seek, view_read}
use libopenraw.Canon.Ciff.Tags.{Tag, image_props, image_info, raw_image_data}
use libopenraw.Canon.Ciff.{
  Record, in_rec, in_heap, RecordEntry, find_record, Heap, new_heap, load, record_heap, endian_u32,
}

pub record HeapFileHeader : Type 0 where
  pub endian : Endian
  pub len : ℕ
  pub type_ : List ℕ
  pub sub_type : List ℕ
  pub version : ℕ

-- The match on the two bytes of the byte order: II or MM.
unfoldable pub endian_mark : List ℕ → Result Endian
endian_mark (a ∷ b ∷ []) =
    if (a == 0x49) && (b == 0x49)
    then ok little
    else (if (a == 0x4d) && (b == 0x4d) then ok big else err format_error)
endian_mark _ = err format_error

-- `as i32`
unfoldable pub signed : ℕ → ℤ
signed n = if ltb n (2 ^ 31) then pos n else negsuc (2 ^ 32 - 1 - n)

pub record ImageSpec : Type 0 where
  pub image_width : ℕ
  pub image_height : ℕ
  pub pixel_aspect_ratio : ℕ
  pub rotation_angle : ℤ
  pub component_bit_depth : ℕ
  pub colour_bit_depth : ℕ
  pub colour_bw : ℕ

-- `ImageSpec::exif_orientation`
unfoldable pub exif_orientation : ImageSpec → ℕ
exif_orientation spec = turned spec.rotation_angle
  where
    turned : ℤ → ℕ
    turned (negsuc n) = 0
    turned (pos n) =
        if n == 0
        then 1
        else (if n == 90 then 6 else (if n == 180 then 3 else (if n == 270 then 8 else 0)))

-- `expect`, and `ok` of a result
unfoldable pub expected : {A : Type 0} → Result A → Result A
expected panic = panic
expected (err code) = panic
expected (ok a) = ok a

unfoldable pub ok_or_none : {A : Type 0} → Result A → Result (Option A)
ok_or_none panic = panic
ok_or_none (err code) = ok none
ok_or_none (ok a) = ok (some a)

module _ (c : ByteOrderCrate) (from_primitive : ℕ → Tag) where
  -- `HeapFileHeader::from_view`
  unfoldable pub header_from_view : View → Result (HeapFileHeader × View)
  header_from_view view = do
    (mark, v1) ← view_read 2 view
    endian ← endian_mark mark
    (len, v2) ← endian_u32 c from_primitive endian v1
    (type_, v3) ← view_read 4 v2
    (sub_type, v4) ← view_read 4 v3
    (version, v5) ← endian_u32 c from_primitive endian v4
    ok (
      record { endian = endian; len = len; type_ = type_; sub_type = sub_type; version = version },
      v5,
    )

  -- `ImageSpec::from_view`
  unfoldable pub image_spec_from_view : Endian → ℕ → View → Result ImageSpec
  image_spec_from_view endian position view = do
    v0 ← seek position view
    (image_width, v1) ← endian_u32 c from_primitive endian v0
    (image_height, v2) ← endian_u32 c from_primitive endian v1
    (pixel_aspect_ratio, v3) ← endian_u32 c from_primitive endian v2
    (rotation, v4) ← endian_u32 c from_primitive endian v3
    (component_bit_depth, v5) ← endian_u32 c from_primitive endian v4
    (colour_bit_depth, v6) ← endian_u32 c from_primitive endian v5
    (colour_bw, v7) ← endian_u32 c from_primitive endian v6
    ok (record {
      image_width = image_width;
      image_height = image_height;
      pixel_aspect_ratio = pixel_aspect_ratio;
      rotation_angle = signed rotation;
      component_bit_depth = component_bit_depth;
      colour_bit_depth = colour_bit_depth;
      colour_bw = colour_bw;
    })

  -- `Container::header`
  unfoldable pub file_header : View → Result HeapFileHeader
  file_header view = do p ← expected (header_from_view view); ok p.0

  -- `Container::heap`, with the byte order of the header. A header longer than the file panics.
  unfoldable pub root_heap : View → Result (Endian × Heap)
  root_heap view = do
    header ← file_header view
    require (leb header.len (length view.bytes))
    heap ← expected (
        load c from_primitive header.endian
          (new_heap header.len ((length view.bytes - header.len) % 2 ^ 32)) view)
    ok (header.endian, heap)

  unfoldable pub heap_of : Endian → View → Option RecordEntry → Result (Option Heap)
  heap_of endian view none = ok none
  heap_of endian view (some e) = record_heap c from_primitive endian e view

  -- `Container::heap_from_heap`
  unfoldable pub heap_from_heap : Endian → View → Heap → Tag → Result (Option Heap)
  heap_from_heap endian view heap tag = heap_of endian view (find_record tag heap.records)

  unfoldable pub spec_at : Endian → View → Record → Result (Option ImageSpec)
  spec_at endian view (in_rec bytes) = ok none
  spec_at endian view (in_heap position len) =
      ok_or_none (image_spec_from_view endian position view)

  unfoldable pub spec_of : Endian → View → Option RecordEntry → Result (Option ImageSpec)
  spec_of endian view none = ok none
  spec_of endian view (some e) = spec_at endian view e.value

  unfoldable pub spec_in : Endian → View → Option Heap → Result (Option ImageSpec)
  spec_in endian view none = ok none
  spec_in endian view (some heap) = spec_of endian view (find_record image_info heap.records)

  -- `Container::image_spec`, with `Container::image_props`
  unfoldable pub image_spec : View → Result (Option ImageSpec)
  image_spec view = do
    (endian, heap) ← root_heap view
    props ← heap_from_heap endian view heap image_props
    spec_in endian view props

  -- `Container::raw_data_record`
  unfoldable pub raw_data_record : View → Result (Option RecordEntry)
  raw_data_record view = do
    (endian, heap) ← root_heap view
    ok (find_record raw_image_data heap.records)
