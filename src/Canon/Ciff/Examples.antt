-- ===== src/Canon/Ciff/Examples.antt =====
-- A file of 78 bytes, and the theorems at concrete inputs.
use libopenraw.Prelude.{ℕ, ◌≡◌, refl, List, [], ◌∷◌, ◌++◌, none, some, ok, panic, arith}
use libopenraw.Container.{little}
use libopenraw.Tiff.Entry.{by_endian}
use libopenraw.Io.{
  little_endian, endian_of, seek, view_u32, view_u16, view_read, u16_bytes, u32_bytes,
}
use libopenraw.Io.ByteReader.{byte_reader, byte_reader-IsByteOrder}
use libopenraw.Tiff.Dir.Written.{at}
use libopenraw.Canon.Ciff.Tags.{Tag, image_props, image_info, from_tagcode}
use libopenraw.Canon.Ciff.Tags.Derived.{tag_of_code}
use libopenraw.Canon.Ciff.{
  in_heap, in_record, RecordEntry, find_record, new_heap, load, record_heap, heap_in, expect,
  endian_u32, endian_u16, read_records, with_record, record_from_view, read_value, add_u32, put,
}
use libopenraw.Canon.Ciff.Written.{Written, records_bytes}
use libopenraw.Canon.Ciff.Heaps.{IsHeapAt, last_record, load-IsHeapAt}
use libopenraw.Canon.Ciff.Loaded.{IsHeapOutcome, loaded, record_heap-IsHeapOutcome}
use libopenraw.Canon.Ciff.Files.{HeapFileHeader, image_spec}
use libopenraw.Canon.Ciff.Files.Chain.{
  Numbers, numbers_bytes, spec_of_numbers, header_bytes, IsSpecFile, image_spec-IsSpecFile,
}

abbrev numbers : Numbers
numbers = record {
  width = 3152;
  height = 2068;
  ratio = 0;
  rotation = 90;
  depth = 12;
  colour_depth = 36;
  bw = 1;
}

abbrev info : Written
info = record { code = 0x1810; value = in_heap 18 28 }

abbrev props : Written
props = record { code = 0x300a; value = in_heap 18 44 }

abbrev props_bytes : List ℕ
props_bytes =
    numbers_bytes little_endian numbers []
    ++ (u16_bytes little_endian 1
        ++ (records_bytes little_endian 18 (info ∷ []) ++ u32_bytes little_endian 28))

abbrev root_bytes : List ℕ
root_bytes =
    props_bytes
    ++ (u16_bytes little_endian 1
        ++ (records_bytes little_endian 18 (props ∷ []) ++ u32_bytes little_endian 44))

abbrev header : HeapFileHeader
header = record {
  endian = little;
  len = 18;
  type_ = 0x48 ∷ 0x45 ∷ 0x41 ∷ 0x50 ∷ [];
  sub_type = 0x43 ∷ 0x43 ∷ 0x44 ∷ 0x52 ∷ [];
  version = 0x10002;
}

abbrev file : List ℕ
file = header_bytes little_endian header root_bytes

props-IsHeapAt :
    IsHeapAt little_endian file 18 44 (numbers_bytes little_endian numbers []) (info ∷ []) [] (
      u16_bytes little_endian 1
      ++ (records_bytes little_endian 18 (props ∷ []) ++ u32_bytes little_endian 44))
unfolding in_record
props-IsHeapAt = record {
  parts = refl;
  whole = refl;
  few = omega arith;
  fits = omega arith;
  written = ((omega arith, (refl, omega arith, omega arith, omega arith)), tt);
}

root-IsHeapAt : IsHeapAt little_endian file 18 60 props_bytes (props ∷ []) [] []
unfolding in_record
root-IsHeapAt = record {
  parts = refl;
  whole = refl;
  few = omega arith;
  fits = omega arith;
  written = ((omega arith, (refl, omega arith, omega arith, omega arith)), tt);
}

file-IsSpecFile : IsSpecFile little_endian tag_of_code file numbers
unfolding from_tagcode endian_of
file-IsSpecFile = record {
  header = header;
  is_header = record {
    order = refl;
    len_fits = omega arith;
    type_four = refl;
    sub_type_four = refl;
    version_fits = omega arith;
  };
  behind_header = root_bytes;
  starts = refl;
  root_front = props_bytes;
  root_records = props ∷ [];
  root_mid = [];
  inside = omega arith;
  root = root-IsHeapAt;
  props = record { type_code = image_props; value = in_heap 18 44 };
  props_start = 18;
  props_size = 44;
  names_props = refl;
  at_props = refl;
  props_front = numbers_bytes little_endian numbers [];
  props_records = info ∷ [];
  props_mid = [];
  behind_props =
      u16_bytes little_endian 1
      ++ (records_bytes little_endian 18 (props ∷ []) ++ u32_bytes little_endian 44);
  props_heap = props-IsHeapAt;
  info = record { type_code = image_info; value = in_heap 18 28 };
  info_start = 18;
  info_size = 28;
  names_info = refl;
  at_info = refl;
  behind_numbers =
      u16_bytes little_endian 1
      ++ (records_bytes little_endian 18 (info ∷ [])
          ++ (u32_bytes little_endian 28
              ++ (u16_bytes little_endian 1
                  ++ (records_bytes little_endian 18 (props ∷ []) ++ u32_bytes little_endian 44))));
  numbers = refl;
  fits = record {
    width = omega arith;
    height = omega arith;
    ratio = omega arith;
    rotation = omega arith;
    depth = omega arith;
    colour_depth = omega arith;
    bw = omega arith;
  };
}

image_spec-IsSpecFile_example :
    image_spec byte_reader tag_of_code (at file 0) ≡ ok (some (spec_of_numbers numbers))
image_spec-IsSpecFile_example =
    image_spec-IsSpecFile byte_reader byte_reader-IsByteOrder little_endian tag_of_code file numbers
      file-IsSpecFile

load-IsHeapAt_example :
    (records : List RecordEntry) × (load byte_reader tag_of_code
        (endian_of little_endian)
        (new_heap 18 60)
        (at file 5)
      ≡ ok (record { start = 18; size = 60; records = records }))
    × ((tag : Tag) → find_record tag records ≡ last_record tag_of_code tag (props ∷ []) none)
load-IsHeapAt_example =
    load-IsHeapAt byte_reader byte_reader-IsByteOrder little_endian tag_of_code file 18 60 5
      props_bytes [] [] (props ∷ []) root-IsHeapAt

-- A record of a heap that ends behind the file.
abbrev bad_entry : RecordEntry
bad_entry = record { type_code = image_props; value = in_heap 18 61 }

bad_heap : record_heap byte_reader tag_of_code little bad_entry (at file 0) ≡ panic
unfolding record_heap heap_in expect load new_heap
bad_heap = refl

abbrev props_entry : RecordEntry
props_entry = record { type_code = image_props; value = in_heap 18 44 }

record_heap-IsHeapOutcome_example :
    IsHeapOutcome
      (at file 0)
      (loaded byte_reader tag_of_code little (in_heap 18 44) (at file 0))
      (in_heap 18 44)
      (record_heap byte_reader tag_of_code little props_entry (at file 0))
record_heap-IsHeapOutcome_example =
    record_heap-IsHeapOutcome byte_reader tag_of_code little props_entry (at file 0)

-- The heap of that record is one of a single record.
props_heap :
    record_heap byte_reader tag_of_code little props_entry (at file 0)
    ≡ ok (
        some (record {
          start = 18;
          size = 44;
          records = record { type_code = image_info; value = in_heap 18 28 } ∷ [];
        }))
unfolding record_heap heap_in expect load new_heap seek endian_u32 endian_u16 view_u32 view_u16
    view_read by_endian read_records with_record record_from_view read_value in_record add_u32 put
    from_tagcode
props_heap = refl
