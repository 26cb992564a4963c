-- ===== src/Canon/Ciff.antt =====
-- src/canon/crw/ciff.rs: the records and heaps of CIFF files. The conversion that the num_enum crate
-- derives for `Tag` is the parameter `from_primitive`. The values of records are left out.
pub mod Tags
pub mod Written
pub mod Heaps
pub mod Loaded
pub mod Files
mod Examples
use libopenraw.Prelude.{
  ℕ, zero, suc, ◌+◌, ◌-◌, ◌/◌, ◌^◌, Bool, true, false, not, Option, none, some, List, [], ◌∷◌, ◌==◌,
  ltb, if◌then◌else◌, length, Result, ok, err, panic, format_error, ◌>>=◌, ◌>>◌, reject_if, require,
  bit_and,
}
use libopenraw.Container.{Endian}
use libopenraw.Io.{ByteOrderCrate, View, seek, view_read, view_u16, view_u32}
use libopenraw.Tiff.Entry.{by_endian}
use libopenraw.Canon.Ciff.Tags.{
  Tag, tag_code, RecordType, byte, ascii, word, d_word, byte2, heap1, heap2, unknown, record_type,
  from_tagcode,
}

-- The bytes in the record, or the position and the length of those in the heap.
pub data Record : Type 0 where
  in_rec : List ℕ → Record
  in_heap : ℕ → ℕ → Record

pub record RecordEntry : Type 0 where
  pub type_code : Tag
  pub value : Record

unfoldable pub in_record : ℕ → Bool
in_record type_code = not (bit_and type_code 0xc000 == 0)

unfoldable pub is_heap : RecordEntry → Bool
is_heap e = elim (record_type e.type_code) [ heap1 ↦ true | heap2 ↦ true | _ ↦ false ]

-- What a length in bytes counts, by the type of the record.
unfoldable pub count_of : RecordType → ℕ → Option ℕ
count_of byte len = some len
count_of byte2 len = some len
count_of ascii len = some len
count_of word len = some (len / 2)
count_of d_word len = some (len / 4)
count_of unknown len = none
count_of heap1 len = some len
count_of heap2 len = some len

unfoldable pub count_in : RecordType → Record → Option ℕ
count_in type_ (in_rec bytes) = none
count_in type_ (in_heap position len) = count_of type_ len

unfoldable pub record_count : RecordEntry → Option ℕ
record_count e = count_in (record_type e.type_code) e.value

-- `offset + base` of `u32` numbers panics where it overflows.
unfoldable pub add_u32 : ℕ → ℕ → Result ℕ
add_u32 a b = do require (ltb (a + b) (2 ^ 32)); ok (a + b)

-- A `BTreeMap` as the list of its entries: a tag that is there gets the new entry.
unfoldable pub put : Tag → RecordEntry → List RecordEntry → List RecordEntry
put tag e [] = e ∷ []
put tag e (x ∷ xs) = if tag_code x.type_code == tag_code tag then e ∷ xs else x ∷ put tag e xs

-- `records.get(&tag)`
unfoldable pub find_record : Tag → List RecordEntry → Option RecordEntry
find_record tag [] = none
find_record tag (x ∷ xs) =
    if tag_code x.type_code == tag_code tag then some x else find_record tag xs

pub record Heap : Type 0 where
  pub start : ℕ
  pub size : ℕ
  pub records : List RecordEntry

-- `Heap::new`
unfoldable pub new_heap : ℕ → ℕ → Heap
new_heap position len = record { start = position; size = len; records = [] }

module _ (c : ByteOrderCrate) (from_primitive : ℕ → Tag) (endian : Endian) where
  -- `read_endian_u16` and `read_endian_u32` of src/io.rs
  unfoldable pub endian_u16 : View → Result (ℕ × View)
  endian_u16 view = by_endian endian (λ o. view_u16 c o view)

  unfoldable pub endian_u32 : View → Result (ℕ × View)
  endian_u32 view = by_endian endian (λ o. view_u32 c o view)

  unfoldable pub read_value : ℕ → ℕ → View → Result (Record × View)
  read_value base type_code view =
      if in_record type_code then (do (bytes, v) ← view_read 8 view; ok (in_rec bytes, v)) else (do
        (len, v1) ← endian_u32 view
        (x, v2) ← endian_u32 v1
        offset ← add_u32 x base
        ok (in_heap offset len, v2))

  -- `RecordEntry::from_view`
  unfoldable pub record_from_view : ℕ → View → Result (RecordEntry × View)
  record_from_view base view = do
    (type_code, v1) ← endian_u16 view
    (value, v2) ← read_value base type_code v1
    ok (record { type_code = from_tagcode from_primitive type_code; value = value }, v2)

  -- A record that could not be read is left out. Reading then stands at the end of the file.
  unfoldable pub with_record :
      Result (RecordEntry × View)
      → List RecordEntry
      → View
      → (List RecordEntry → View → Result (List RecordEntry))
      → Result (List RecordEntry)
  with_record panic records view next = panic
  with_record (err code) records view next = next records (record view { pos = length view.bytes })
  with_record (ok (e, view')) records view next = next (put e.type_code e records) view'

  unfoldable pub read_records : ℕ → ℕ → List RecordEntry → View → Result (List RecordEntry)
  read_records zero base records view = ok records
  read_records (suc left) base records view =
      with_record (record_from_view base view) records view (read_records left base)

  -- `Heap::load`, without what is logged: the text about a heap that is too long adds `len` and `pos` as
  -- `u32` numbers, which overflows where logging is on and the sum is 2 ^ 32 or more.
  unfoldable pub load : Heap → View → Result Heap
  load heap view = do
    reject_if (ltb heap.size 4) format_error
    reject_if (ltb (length view.bytes) (heap.size + heap.start)) format_error
    v1 ← seek (heap.start + heap.size - 4) view
    (heap_start, v2) ← endian_u32 v1
    reject_if (ltb (heap.size - 4) heap_start) format_error
    v3 ← seek (heap.start + heap_start) v2
    (num_records, v4) ← endian_u16 v3
    records ← read_records num_records heap.start heap.records v4
    ok (record heap { records = records })

  -- What `expect` makes of a heap that does not load.
  unfoldable pub expect : Result Heap → Result (Option Heap)
  expect panic = panic
  expect (err code) = panic
  expect (ok heap) = ok (some heap)

  unfoldable pub heap_in : Record → View → Result (Option Heap)
  heap_in (in_rec bytes) view = ok none
  heap_in (in_heap position len) view = expect (load (new_heap position len) view)

  -- `RecordEntry::heap`
  unfoldable pub record_heap : RecordEntry → View → Result (Option Heap)
  record_heap e view = heap_in e.value view
