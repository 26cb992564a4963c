-- ===== src/Canon/Ciff/Heaps.antt =====
-- A heap that was written is read back.
use libopenraw.Prelude.{
  ℕ, ◌+◌, ◌-◌, ◌^◌, ◌≤◌, ◌<◌, ◌≡◌, refl, sym, ap, ◌∙◌, inl, inr, Bool, true, false, Bool-cases,
  ==_iff, if◌then◌else◌, List, [], ◌∷◌, ◌++◌, append_assoc, ◌==◌, length, length-append,
  length-drop, drop, All, Option, none, some, ge→ltb, ok, arith,
}
use libopenraw.Io.{ByteOrder, endian_of, ByteOrderCrate, IsByteOrder, seek, u16_bytes, u32_bytes}
use libopenraw.Tiff.Entry.Values.{length-u16_bytes, length-u32_bytes}
use libopenraw.Tiff.Dir.Written.{at, behind}
use libopenraw.Canon.Ciff.Tags.{Tag, tag_code, from_tagcode}
use libopenraw.Canon.Ciff.{RecordEntry, put, find_record, new_heap, load}
use libopenraw.Canon.Ciff.Written.{
  Written, IsWritten, entry_of, put_all, records_bytes, endian_u16-at, endian_u32-at,
  read_records-records_bytes,
}

-- The bytes of a heap at `start`: the data `front` of the records, their count and the records, other
-- bytes, and last the length of `front`.
pub record IsHeapAt (o : ByteOrder) (bytes : List ℕ) (start size : ℕ) (front : List ℕ)
    (ws : List Written) (mid rest : List ℕ) : Type 0 where
  pub parts :
      drop start bytes
      ≡ front
        ++ (u16_bytes o (length ws)
            ++ (records_bytes o start ws ++ (mid ++ (u32_bytes o (length front) ++ rest))))
  pub whole : size ≡ length front + (2 + (length (records_bytes o start ws) + (length mid + 4)))
  pub few : length ws < 2 ^ 16
  pub fits : size < 2 ^ 32
  pub written : All (IsWritten start) ws

-- What a map says of a tag behind `put`.
find_record-put :
    (tag u : Tag) (e : RecordEntry) (records : List RecordEntry)
    → tag_code e.type_code ≡ tag_code u
    → find_record tag (put u e records)
      ≡ (if tag_code e.type_code == tag_code tag then some e else find_record tag records)
unfolding find_record put
find_record-put tag u e [] same = refl
find_record-put tag u e (x ∷ xs) same = elim (Bool-cases (tag_code x.type_code == tag_code u)) [
  | inl f ↦
      let here : tag_code x.type_code ≡ tag_code e.type_code = (==_iff _ _).0 f ∙ sym same in
      rw (f, here)
        (twice (tag_code e.type_code == tag_code tag) (some x) (some e) (find_record tag xs))
  | inr f ↦
      rw (f, find_record-put tag u e xs same)
        (swap (tag_code x.type_code == tag_code tag) (tag_code e.type_code == tag_code tag) (some x)
          (some e) (find_record tag xs)
          (λ a b. absurd (differ f ((==_iff _ _).0 a) ((==_iff _ _).0 b))))
]
  where
    twice :
        (b : Bool) (x y z : Option RecordEntry)
        → (if b then y else z) ≡ (if b then y else (if b then x else z))
    twice true x y z = refl
    twice false x y z = refl

    swap :
        (a b : Bool) (x y z : Option RecordEntry)
        → (a ≡ true → b ≡ true → x ≡ y)
        → (if a then x else (if b then y else z)) ≡ (if b then y else (if a then x else z))
    swap true true x y z h = h refl refl
    swap true false x y z h = refl
    swap false true x y z h = refl
    swap false false x y z h = refl

    differ :
        (tag_code x.type_code == tag_code u) ≡ false
        → tag_code x.type_code ≡ tag_code tag
        → tag_code e.type_code ≡ tag_code tag
        → ⊥
    differ f a b = ground (arith, f, a, b, same)

-- The last of the records that have a tag, and `acc` where there is none.
abbrev pub last_record : (ℕ → Tag) → Tag → List Written → Option RecordEntry → Option RecordEntry
last_record from_primitive tag [] acc = acc
last_record from_primitive tag (w ∷ ws) acc = last_record from_primitive tag ws (
    if tag_code (from_tagcode from_primitive w.code) == tag_code tag
    then some (entry_of from_primitive w)
    else acc)

find_record-put_all :
    (from_primitive : ℕ → Tag) (tag : Tag) (ws : List Written) (records : List RecordEntry)
    → find_record tag (put_all from_primitive ws records)
      ≡ last_record from_primitive tag ws (find_record tag records)
find_record-put_all from_primitive tag [] records = refl
find_record-put_all from_primitive tag (w ∷ ws) records =
    let u = from_tagcode from_primitive w.code in
    find_record-put_all from_primitive tag ws (put u (entry_of from_primitive w) records)
    ∙ ap (last_record from_primitive tag ws)
        (find_record-put tag u (entry_of from_primitive w) records refl)

module _ (c : ByteOrderCrate) (laws : IsByteOrder c) (o : ByteOrder)
    (from_primitive : ℕ → Tag) where
  load-put_all :
      (bytes : List ℕ) (start size pos : ℕ) (front mid rest : List ℕ) (ws : List Written)
      → IsHeapAt o bytes start size front ws mid rest
      → load c from_primitive (endian_of o) (new_heap start size) (at bytes pos)
        ≡ ok (record { start = start; size = size; records = put_all from_primitive ws [] })
  unfolding load new_heap seek
  load-put_all bytes start size pos front mid rest ws heap =
      let n = u16_bytes o (length ws) in
      let rs = records_bytes o start ws in
      let last = u32_bytes o (length front) ++ rest in
      let body : List ℕ = front ++ (n ++ (rs ++ mid)) in
      let two = length-u16_bytes o (length ws) in
      let four = length-u32_bytes o (length front) in
      let count : length body ≡ size - 4 = omega (
        arith,
        heap.whole,
        length-append front (n ++ (rs ++ mid)),
        length-append n (rs ++ mid),
        length-append rs mid,
        two,
      ) in
      let joined : drop start bytes ≡ body ++ last =
        heap.parts
        ∙ sym (
            append_assoc front (n ++ (rs ++ mid)) last
            ∙ ap (λ t. front ++ t)
                (append_assoc n (rs ++ mid) last ∙ ap (λ t. n ++ t) (append_assoc rs mid last))) in
      let room : start + size ≤ length bytes = omega (
        arith,
        heap.whole,
        count,
        ap length joined,
        length-drop start bytes,
        length-append body last,
        length-append (u32_bytes o (length front)) rest,
        four,
      ) in
      let place : start + size - 4 ≡ start + (size - 4) = omega (arith, heap.whole) in
      let at_last : drop (start + size - 4) bytes ≡ last =
        ap (λ k. drop k bytes) place ∙ behind bytes start (size - 4) body last count joined in
      let (r1, d1) =
        endian_u32-at bytes c laws o from_primitive (start + size - 4) (length front) rest
          (omega (arith, heap.fits, heap.whole)) at_last in
      let at_count =
        behind bytes start (length front) front (n ++ (rs ++ (mid ++ last))) refl heap.parts in
      let (r2, d2) =
        endian_u16-at bytes c laws o from_primitive (start + length front) (length ws)
          (rs ++ (mid ++ last)) heap.few at_count in
      rw
        (
          ge→ltb size 4 (omega (arith, heap.whole)),
          ge→ltb (length bytes) (size + start) (omega (arith, room)),
          ge→ltb (length bytes) (start + size - 4) (omega (arith, room)),
          r1,
          ge→ltb (size - 4) (length front) (omega (arith, heap.whole)),
          ge→ltb (length bytes) (start + length front) (omega (arith, room, heap.whole)),
          r2,
          read_records-records_bytes bytes c laws o from_primitive start (start + length front + 2)
              ws (mid ++ last) [] heap.written d2,
        )
        refl

  -- With a byte order that does what the crate documents: where a file has a heap of records, `load`
  -- returns a heap of its position and size, in which every tag finds the last of the records that
  -- have it, with its value, and nothing where no record has it.
  pub load-IsHeapAt :
      (bytes : List ℕ) (start size pos : ℕ) (front mid rest : List ℕ) (ws : List Written)
      → IsHeapAt o bytes start size front ws mid rest
      → (records : List RecordEntry) × (load c from_primitive
            (endian_of o)
            (new_heap start size)
            (at bytes pos)
          ≡ ok (record { start = start; size = size; records = records }))
        × ((tag : Tag) → find_record tag records ≡ last_record from_primitive tag ws none)
  unfolding find_record
  load-IsHeapAt bytes start size pos front mid rest ws heap = (
    put_all from_primitive ws [],
    load-put_all bytes start size pos front mid rest ws heap,
    λ tag. find_record-put_all from_primitive tag ws [],
  )
