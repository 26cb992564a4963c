-- ===== src/Canon/Ciff/Loaded.antt =====
-- What a heap of any file holds, and what asking a record for its heap gives.
use libopenraw.Prelude.{
  ℕ, zero, suc, ◌+◌, ◌^◌, ◌≤◌, ◌<◌, ◌≡◌, ◌≢◌, refl, subst, inl, inr, false, Bool-cases, ==_iff,
  ◌==◌, List, [], ◌∷◌, length, All, Option, none, some, ltb, ltb→lt, ltb→ge, Result, ok, err, panic,
  After, After-bind, After-skip, Safely-After, After-reject_if, reject_if, format_error, ◌-◌, arith,
}
use libopenraw.Io.{ByteOrderCrate, View, seek, view_read}
use libopenraw.Tiff.Dir.Loaded.{view_read-Safely}
use libopenraw.Canon.Ciff.Tags.{Tag, tag_code}
use libopenraw.Container.{Endian}
use libopenraw.Canon.Ciff.{
  Record, in_rec, in_heap, RecordEntry, in_record, put, add_u32, Heap, new_heap, endian_u16,
  endian_u32, read_value, record_from_view, with_record, read_records, load, expect, heap_in,
  record_heap,
}

-- A value in the record has 8 bytes, and one in the heap does not start in front of the heap.
abbrev pub IsPlaced : ℕ → Record → Type 0
IsPlaced base (in_rec bytes) = length bytes ≡ 8
IsPlaced base (in_heap position len) = (base ≤ position) × (position < 2 ^ 32)

-- No record has the tag of this code.
abbrev pub HasNone : ℕ → List RecordEntry → Type 0
HasNone code records = All (λ x. tag_code x.type_code ≢ code) records

-- No two records have the same tag.
abbrev pub IsMap : List RecordEntry → Type 0
IsMap [] = Unit
IsMap (x ∷ xs) = HasNone (tag_code x.type_code) xs × IsMap xs

pub record HasRecords (base : ℕ) (records : List RecordEntry) : Type 0 where
  pub placed : All (λ e. IsPlaced base e.value) records
  pub map_ : IsMap records

-- What is loaded as the heap of so many bytes at `position`: it has 4 bytes for the place of its records
-- and ends in the file.
pub record IsLoaded (view : View) (position len : ℕ) (heap : Heap) : Type 0 where
  pub starts : heap.start ≡ position
  pub size : heap.size ≡ len
  pub long : 4 ≤ len
  pub inside : position + len ≤ length view.bytes
  pub records : HasRecords position heap.records

abbrev pub IsFailure : Result Heap → Type 0
IsFailure panic = Unit
IsFailure (err code) = Unit
IsFailure (ok heap) = ⊥

-- What a record gives when it is asked for its heap, of which loading gives `m`: nothing where its value
-- stands in the record, otherwise a heap, or a panic where loading fails. It is never an error.
abbrev pub IsHeapOutcome : View → Result Heap → Record → Result (Option Heap) → Type 0
IsHeapOutcome view m (in_rec bytes) panic = ⊥
IsHeapOutcome view m (in_heap position len) panic = IsFailure m
IsHeapOutcome view m value (err code) = ⊥
IsHeapOutcome view m (in_rec bytes) (ok heap) = heap ≡ none
IsHeapOutcome view m (in_heap position len) (ok none) = ⊥
IsHeapOutcome view m (in_heap position len) (ok (some heap)) =
    (m ≡ ok heap) × IsLoaded view position len heap

put-All :
    (P : RecordEntry → Type 0) (tag : Tag) (e : RecordEntry) (records : List RecordEntry)
    → P e
    → All P records
    → All P (put tag e records)
unfolding put
put-All P tag e [] h all = (h, tt)
put-All P tag e (x ∷ xs) h all = elim (Bool-cases (tag_code x.type_code == tag_code tag)) [
  | inl f ↦ rw f (h, all.1)
  | inr f ↦ rw f (all.0, put-All P tag e xs h all.1)
]

put-IsMap :
    (e : RecordEntry) (records : List RecordEntry)
    → IsMap records
    → IsMap (put e.type_code e records)
unfolding put
put-IsMap e [] h = (tt, tt)
put-IsMap e (x ∷ xs) h = elim (Bool-cases (tag_code x.type_code == tag_code e.type_code)) [
  | inl f ↦ rw f (subst (λ t. HasNone t xs) ((==_iff _ _).0 f) h.0, h.1)
  | inr f ↦ rw f (
    put-All (λ y. tag_code y.type_code ≢ tag_code x.type_code) e.type_code e xs
        (λ same. ground (arith, f, same)) h.0,
    put-IsMap e xs h.1,
  )
]

put-HasRecords :
    (base : ℕ) (e : RecordEntry) (records : List RecordEntry)
    → IsPlaced base e.value
    → HasRecords base records
    → HasRecords base (put e.type_code e records)
put-HasRecords base e records p h = record {
  placed = put-All (λ x. IsPlaced base x.value) e.type_code e records p h.placed;
  map_ = put-IsMap e records h.map_;
}

add_u32-IsPlaced : (a base len : ℕ) → After (λ s. IsPlaced base (in_heap s len)) (add_u32 a base)
unfolding add_u32
add_u32-IsPlaced a base len = elim (Bool-cases (ltb (a + base) (2 ^ 32))) [
  | inl e ↦ rw e (omega arith, ltb→lt (a + base) (2 ^ 32) e)
  | inr e ↦ rw e tt
]

view_read-After : (n : ℕ) (view : View) → After (λ p. length p.0 ≡ n) (view_read n view)
view_read-After n view =
    Safely-After (λ p. length p.0 ≡ n) (view_read n view) (view_read-Safely n view)

module _ (c : ByteOrderCrate) (from_primitive : ℕ → Tag) (endian : Endian) where
  read_value-IsPlaced :
      (base code : ℕ) (view : View)
      → After (λ p. IsPlaced base p.0) (read_value c from_primitive endian base code view)
  unfolding read_value
  read_value-IsPlaced base code view = elim (Bool-cases (in_record code)) [
    | inl e ↦ rw e (
        After-bind (λ p. length p.0 ≡ 8) (λ p. IsPlaced base p.0) (view_read 8 view) _
          (view_read-After 8 view) (λ p eight. eight))
    | inr e ↦ rw e (
        After-skip (λ p. IsPlaced base p.0) (endian_u32 c from_primitive endian view) _
          (λ len.
            After-skip (λ p. IsPlaced base p.0) (endian_u32 c from_primitive endian len.1) _
              (λ x.
                After-bind (λ s. IsPlaced base (in_heap s len.0)) (λ p. IsPlaced base p.0)
                  (add_u32 x.0 base) _ (add_u32-IsPlaced x.0 base len.0) (λ s placed. placed))))
  ]

  record_from_view-IsPlaced :
      (base : ℕ) (view : View)
      → After (λ p. IsPlaced base p.0.value) (record_from_view c from_primitive endian base view)
  unfolding record_from_view
  record_from_view-IsPlaced base view =
      After-skip (λ p. IsPlaced base p.0.value) (endian_u16 c from_primitive endian view) _
        (λ code.
          After-bind (λ p. IsPlaced base p.0) (λ p. IsPlaced base p.0.value)
            (read_value c from_primitive endian base code.0 code.1) _
            (read_value-IsPlaced base code.0 code.1) (λ p placed. placed))

  read_records-HasRecords :
      (left base : ℕ) (records : List RecordEntry) (view : View)
      → HasRecords base records
      → After (HasRecords base) (read_records c from_primitive endian left base records view)
  unfolding read_records
  read_records-HasRecords zero base records view h = h
  read_records-HasRecords (suc left) base records view h =
      go_on (record_from_view c from_primitive endian base view)
        (record_from_view-IsPlaced base view) (read_records-HasRecords left base)
    where
      go_on :
          (m : Result (RecordEntry × View))
          → After (λ p. IsPlaced base p.0.value) m
          → ((next : List RecordEntry) (v : View)
              → HasRecords base next
              → After (HasRecords base) (read_records c from_primitive endian left base next v))
          → After (HasRecords base) (
              with_record c from_primitive endian m records view
                (read_records c from_primitive endian left base))
      go_on panic placed later = unfold with_record in tt
      go_on (err code) placed later = unfold with_record in (later _ _ h)
      go_on (ok (e, v)) placed later =
          unfold with_record in (later _ v (put-HasRecords base e records placed h))

  load-IsLoaded :
      (position len : ℕ) (view : View)
      → After
          (IsLoaded view position len)
          (load c from_primitive endian (new_heap position len) view)
  unfolding load new_heap
  load-IsLoaded position len view =
      let Q = IsLoaded view position len in
      After-bind (λ _. ltb len 4 ≡ false) Q (reject_if (ltb len 4) format_error) _
        (After-reject_if (ltb len 4) format_error)
        (λ _ long.
          After-bind (λ _. ltb (length view.bytes) (len + position) ≡ false) Q
            (reject_if (ltb (length view.bytes) (len + position)) format_error) _
            (After-reject_if (ltb (length view.bytes) (len + position)) format_error)
            (λ _ inside. After-skip Q (seek (position + len - 4) view) _ (λ v1.
              After-skip Q (endian_u32 c from_primitive endian v1) _ (λ first.
                After-skip Q (reject_if (ltb (len - 4) first.0) format_error) _ (λ _.
                  After-skip Q (seek (position + first.0) first.1) _ (λ v3.
                    After-skip Q (endian_u16 c from_primitive endian v3) _ (λ n.
                      After-bind (HasRecords position) Q
                        (read_records c from_primitive endian n.0 position [] n.1) _
                        (read_records-HasRecords n.0 position [] n.1
                          (record { placed = tt; map_ = tt }))
                        (λ records h. record {
                          starts = refl;
                          size = refl;
                          long = ltb→ge len 4 long;
                          inside = omega (arith, ltb→ge _ _ inside);
                          records = h;
                        }))))))))

  expect-IsHeapOutcome :
      (position len : ℕ) (view : View) (m : Result Heap)
      → After (IsLoaded view position len) m
      → IsHeapOutcome view m (in_heap position len) (expect c from_primitive endian m)
  unfolding expect
  expect-IsHeapOutcome position len view panic h = tt
  expect-IsHeapOutcome position len view (err code) h = tt
  expect-IsHeapOutcome position len view (ok heap) h = (refl, h)

  -- What `load` gives for the place and size that a value of a record names.
  abbrev pub loaded : Record → View → Result Heap
  loaded (in_rec bytes) view = panic
  loaded (in_heap position len) view = load c from_primitive endian (new_heap position len) view

  -- For any file and any record: where the value stands in the record, `heap` of the record is nothing.
  -- Otherwise it is the heap that `load` returns, and a panic where `load` returns none. Such a heap has
  -- at least 4 bytes and lies in the file, no two of its records have the same tag, and each of them has
  -- 8 bytes of its own or a value at a 32-bit position that is not in front of the heap.
  pub record_heap-IsHeapOutcome :
      (e : RecordEntry) (view : View)
      → IsHeapOutcome view
          (loaded e.value view)
          e.value
          (record_heap c from_primitive endian e view)
  unfolding record_heap heap_in
  record_heap-IsHeapOutcome e view = by_value e.value
    where
      by_value :
          (value : Record)
          → IsHeapOutcome view
              (loaded value view)
              value
              (heap_in c from_primitive endian value view)
      by_value (in_rec bytes) = refl
      by_value (in_heap position len) =
          expect-IsHeapOutcome position len view _ (load-IsLoaded position len view)
