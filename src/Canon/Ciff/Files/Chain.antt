-- ===== src/Canon/Ciff/Files/Chain.antt =====
-- From the header of a file to the specification of its picture.
use libopenraw.Prelude.{
  ℕ, ◌+◌, ◌-◌, ◌%◌, ◌^◌, ◌≤◌, ◌<◌, ◌≡◌, refl, sym, ap, ◌∙◌, List, [], ◌∷◌, ◌++◌, length,
  length-append, length-drop, drop, none, some, ge→ltb, le→leb, Result, ok, arith,
}
use libopenraw.Container.{Endian}
use libopenraw.Io.{
  ByteOrder, big_endian, little_endian, endian_of, ByteOrderCrate, IsByteOrder, seek, u32_bytes,
}
use libopenraw.Tiff.Entry.Values.{length-u32_bytes}
use libopenraw.Tiff.Dir.Written.{at, view_read-at, fits_lem, behind}
use libopenraw.Canon.Ciff.Tags.{Tag, image_props, image_info}
use libopenraw.Canon.Ciff.{in_heap, RecordEntry, find_record, Heap, expect, heap_in, record_heap}
use libopenraw.Canon.Ciff.Written.{Written, endian_u32-at}
use libopenraw.Canon.Ciff.Heaps.{IsHeapAt, last_record, load-IsHeapAt}
use libopenraw.Canon.Ciff.Files.{
  HeapFileHeader, endian_mark, header_from_view, ImageSpec, signed, image_spec_from_view, expected,
  ok_or_none, file_header, root_heap, heap_of, heap_from_heap, spec_at, spec_of, spec_in,
  image_spec,
}

abbrev pub mark_bytes : ByteOrder → List ℕ
mark_bytes little_endian = 0x49 ∷ 0x49 ∷ []
mark_bytes big_endian = 0x4d ∷ 0x4d ∷ []

-- A header as its bytes.
abbrev pub header_bytes : ByteOrder → HeapFileHeader → List ℕ → List ℕ
header_bytes o h rest =
    mark_bytes o
    ++ (u32_bytes o h.len ++ (h.type_ ++ (h.sub_type ++ (u32_bytes o h.version ++ rest))))

pub record IsHeader (o : ByteOrder) (h : HeapFileHeader) : Type 0 where
  pub order : h.endian ≡ endian_of o
  pub len_fits : h.len < 2 ^ 32
  pub type_four : length h.type_ ≡ 4
  pub sub_type_four : length h.sub_type ≡ 4
  pub version_fits : h.version < 2 ^ 32

-- The seven numbers of a specification, as they are written.
pub record Numbers : Type 0 where
  pub width : ℕ
  pub height : ℕ
  pub ratio : ℕ
  pub rotation : ℕ
  pub depth : ℕ
  pub colour_depth : ℕ
  pub bw : ℕ

pub record AreNumbers (n : Numbers) : Type 0 where
  pub width : n.width < 2 ^ 32
  pub height : n.height < 2 ^ 32
  pub ratio : n.ratio < 2 ^ 32
  pub rotation : n.rotation < 2 ^ 32
  pub depth : n.depth < 2 ^ 32
  pub colour_depth : n.colour_depth < 2 ^ 32
  pub bw : n.bw < 2 ^ 32

abbrev pub numbers_bytes : ByteOrder → Numbers → List ℕ → List ℕ
numbers_bytes o n rest =
    u32_bytes o n.width
    ++ (u32_bytes o n.height
        ++ (u32_bytes o n.ratio
            ++ (u32_bytes o n.rotation
                ++ (u32_bytes o n.depth
                    ++ (u32_bytes o n.colour_depth ++ (u32_bytes o n.bw ++ rest))))))

abbrev pub spec_of_numbers : Numbers → ImageSpec
spec_of_numbers n = record {
  image_width = n.width;
  image_height = n.height;
  pixel_aspect_ratio = n.ratio;
  rotation_angle = signed n.rotation;
  component_bit_depth = n.depth;
  colour_bit_depth = n.colour_depth;
  colour_bw = n.bw;
}

module _ (c : ByteOrderCrate) (laws : IsByteOrder c) (o : ByteOrder) (from_primitive : ℕ → Tag)
    (bytes : List ℕ) where
  endian_mark-mark_bytes : (o : ByteOrder) → endian_mark (mark_bytes o) ≡ ok (endian_of o)
  unfolding endian_mark endian_of
  endian_mark-mark_bytes big_endian = refl
  endian_mark-mark_bytes little_endian = refl

  length-mark_bytes : (o : ByteOrder) → length (mark_bytes o) ≡ 2
  length-mark_bytes big_endian = refl
  length-mark_bytes little_endian = refl

  header_from_view-header_bytes :
      (p : ℕ) (h : HeapFileHeader) (rest : List ℕ)
      → IsHeader o h
      → drop p bytes ≡ header_bytes o h rest
      → header_from_view c from_primitive (at bytes p) ≡ ok (h, at bytes (p + 2 + 4 + 4 + 4 + 4))
  unfolding header_from_view
  header_from_view-header_bytes p h rest is there =
      let two = length-mark_bytes o in
      let tail2 : List ℕ =
        u32_bytes o h.len ++ (h.type_ ++ (h.sub_type ++ (u32_bytes o h.version ++ rest))) in
      let f2 = fits_lem bytes p 2 (mark_bytes o) tail2 (omega arith) two there in
      let d2 = behind bytes p 2 (mark_bytes o) tail2 two there in
      let (r3, d3) = endian_u32-at bytes c laws o from_primitive (p + 2) h.len _ is.len_fits d2 in
      let tail4 : List ℕ = h.sub_type ++ (u32_bytes o h.version ++ rest) in
      let f4 = fits_lem bytes (p + 2 + 4) 4 h.type_ tail4 (omega arith) is.type_four d3 in
      let d4 = behind bytes (p + 2 + 4) 4 h.type_ tail4 is.type_four d3 in
      let tail5 : List ℕ = u32_bytes o h.version ++ rest in
      let f5 =
        fits_lem bytes (p + 2 + 4 + 4) 4 h.sub_type tail5 (omega arith) is.sub_type_four d4 in
      let d5 = behind bytes (p + 2 + 4 + 4) 4 h.sub_type tail5 is.sub_type_four d4 in
      let (r6, d6) =
        endian_u32-at bytes c laws o from_primitive (p + 2 + 4 + 4 + 4) h.version rest
          is.version_fits d5 in
      rw
        (
          view_read-at bytes p 2 (mark_bytes o) tail2 two f2 there,
          endian_mark-mark_bytes o,
          r3,
          view_read-at bytes (p + 2 + 4) 4 h.type_ tail4 is.type_four f4 d3,
          view_read-at bytes (p + 2 + 4 + 4) 4 h.sub_type tail5 is.sub_type_four f5 d4,
          r6,
          sym is.order,
        )
        refl

  image_spec_from_view-numbers_bytes :
      (p q : ℕ) (n : Numbers) (rest : List ℕ)
      → AreNumbers n
      → drop q bytes ≡ numbers_bytes o n rest
      → image_spec_from_view c from_primitive (endian_of o) q (at bytes p) ≡ ok (spec_of_numbers n)
  unfolding image_spec_from_view seek
  image_spec_from_view-numbers_bytes p q n rest fits there =
      let inside : q ≤ length bytes = omega (
        arith,
        ap length there,
        length-drop q bytes,
        length-append (u32_bytes o n.width) _,
        length-u32_bytes o n.width,
      ) in
      let read = endian_u32-at bytes c laws o from_primitive in
      let (r1, d1) = read q n.width _ fits.width there in
      let (r2, d2) = read (q + 4) n.height _ fits.height d1 in
      let (r3, d3) = read (q + 4 + 4) n.ratio _ fits.ratio d2 in
      let (r4, d4) = read (q + 4 + 4 + 4) n.rotation _ fits.rotation d3 in
      let (r5, d5) = read (q + 4 + 4 + 4 + 4) n.depth _ fits.depth d4 in
      let (r6, d6) = read (q + 4 + 4 + 4 + 4 + 4) n.colour_depth _ fits.colour_depth d5 in
      let (r7, d7) = read (q + 4 + 4 + 4 + 4 + 4 + 4) n.bw rest fits.bw d6 in
      rw (ge→ltb (length bytes) q inside, r1, r2, r3, r4, r5, r6, r7) refl

-- A file whose header is followed by a root heap up to the end of the file, in which a record names a
-- heap of picture properties, in which a record names the numbers of a specification.
pub record IsSpecFile (o : ByteOrder) (from_primitive : ℕ → Tag) (bytes : List ℕ) (n : Numbers)
    : Type 0 where
  pub header : HeapFileHeader
  pub is_header : IsHeader o header
  pub behind_header : List ℕ
  pub starts : bytes ≡ header_bytes o header behind_header
  pub root_front : List ℕ
  pub root_records : List Written
  pub root_mid : List ℕ
  pub inside : header.len ≤ length bytes
  pub root :
      IsHeapAt o bytes header.len (length bytes - header.len) root_front root_records root_mid []
  pub props : RecordEntry
  pub props_start : ℕ
  pub props_size : ℕ
  pub names_props : last_record from_primitive image_props root_records none ≡ some props
  pub at_props : props.value ≡ in_heap props_start props_size
  pub props_front : List ℕ
  pub props_records : List Written
  pub props_mid : List ℕ
  pub behind_props : List ℕ
  pub props_heap :
      IsHeapAt o bytes props_start props_size props_front props_records props_mid behind_props
  pub info : RecordEntry
  pub info_start : ℕ
  pub info_size : ℕ
  pub names_info : last_record from_primitive image_info props_records none ≡ some info
  pub at_info : info.value ≡ in_heap info_start info_size
  pub behind_numbers : List ℕ
  pub numbers : drop info_start bytes ≡ numbers_bytes o n behind_numbers
  pub fits : AreNumbers n

-- What the root heap is read as.
record HasRoot (from_primitive : ℕ → Tag) (o : ByteOrder) (ws : List Written)
    (m : Result (Endian × Heap)) : Type 0 where
  heap : Heap
  returns : m ≡ ok (endian_of o, heap)
  finds : (tag : Tag) → find_record tag heap.records ≡ last_record from_primitive tag ws none

module _ (c : ByteOrderCrate) (laws : IsByteOrder c) (o : ByteOrder) (from_primitive : ℕ → Tag)
    (bytes : List ℕ) (n : Numbers) (file : IsSpecFile o from_primitive bytes n) where
  root_heap-HasRoot :
      HasRoot from_primitive o file.root_records (root_heap c from_primitive (at bytes 0))
  unfolding root_heap file_header expected
  root_heap-HasRoot =
      let h = file.header in
      let (records, returns, finds) =
        load-IsHeapAt c laws o from_primitive bytes h.len (length bytes - h.len) 0 file.root_front
          file.root_mid [] file.root_records file.root in
      let size : (length bytes - h.len) % 2 ^ 32 ≡ length bytes - h.len =
        omega (arith, file.root.fits) in
      record {
        heap = record { start = h.len; size = length bytes - h.len; records = records };
        returns =
            rw
              (
                header_from_view-header_bytes c laws o from_primitive bytes 0 h file.behind_header
                    file.is_header file.starts,
                le→leb h.len (length bytes) file.inside,
                size,
                file.is_header.order,
                returns,
              )
              refl;
        finds = finds;
      }

  -- With a byte order that does what the crate documents, and in either order: from a file with a
  -- header, a root heap to its end, a heap of picture properties that the root names and a
  -- specification that this heap names, `image_spec` returns the numbers of the specification, the
  -- rotation as a signed one.
  pub image_spec-IsSpecFile :
      image_spec c from_primitive (at bytes 0) ≡ ok (some (spec_of_numbers n))
  unfolding image_spec heap_from_heap heap_of record_heap heap_in expect spec_in spec_of spec_at
      ok_or_none
  image_spec-IsSpecFile =
      let root = root_heap-HasRoot in
      let (records, returns, finds) =
        load-IsHeapAt c laws o from_primitive bytes file.props_start file.props_size 0
          file.props_front file.props_mid file.behind_props file.props_records file.props_heap in
      rw
        (
          root.returns,
          root.finds image_props ∙ file.names_props,
          file.at_props,
          returns,
          finds image_info ∙ file.names_info,
          file.at_info,
          image_spec_from_view-numbers_bytes c laws o from_primitive bytes 0 file.info_start n
              file.behind_numbers file.fits file.numbers,
        )
        refl
