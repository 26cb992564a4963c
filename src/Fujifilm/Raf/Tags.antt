-- ===== src/Fujifilm/Raf/Tags.antt =====
-- A metadata container that was written is read back.
use libopenraw.Prelude.{
  ℕ, ◌+◌, ◌*◌, ◌^◌, ◌≤◌, ◌<◌, ◌≡◌, ◌≢◌, refl, sym, ap, ◌∙◌, inl, inr, Bool, true, false, Bool-cases,
  List, [], ◌∷◌, ◌++◌, append_assoc, append-nil, ◌==◌, ==_iff, ne→==, if◌then◌else◌, length,
  length-append, drop, All, Option, none, some, ltb, Result, ok, arith,
}
use libopenraw.Io.{
  ByteOrderCrate, IsByteOrder, big_endian, little_endian, View, u16_bytes, u32_bytes,
}
use libopenraw.Tiff.Entry.Values.{packed, read_units-packed, length-u32_bytes}
use libopenraw.Tiff.Entry.{read_units}
use libopenraw.Tiff.Dir.{insert}
use libopenraw.Tiff.Dir.Written.{at, view_read-at, fits_lem, behind, view_u16-at, view_u32-at}
use libopenraw.Fujifilm.Raf.{
  Value, int_value, bytes_value, u32s_value, tag_raf_data, get_tag, be_u32, read_u32_into,
  read_tag_value, read_tags, load_meta,
}

-- What a map of tags says behind an insertion.
get_tag-insert :
    (tag u : ℕ) (v : Value) (tags : List (ℕ × Value))
    → get_tag tag (insert u v tags) ≡ (if u == tag then some v else get_tag tag tags)
unfolding get_tag insert
get_tag-insert tag u v [] = refl
get_tag-insert tag u v (p ∷ ps) = elim (Bool-cases (u == p.0)) [
  | inl e ↦
      let same : u ≡ p.0 = (==_iff u p.0).0 e in
      rw (e, sym same) (twice (u == tag) (some v) (some p.1) (get_tag tag ps))
  | inr e ↦ elim (Bool-cases (ltb u p.0)) [
    | inl f ↦ rw (e, f) refl
    | inr f ↦
        rw (e, f, get_tag-insert tag u v ps)
          (swap (p.0 == tag) (u == tag) (some p.1) (some v) (get_tag tag ps)
            (λ a b. absurd (differ e ((==_iff p.0 tag).0 a) ((==_iff u tag).0 b))))
  ]
]
  where
    twice :
        (b : Bool) (x y z : Option Value)
        → (if b then x else z) ≡ (if b then x else (if b then y else z))
    twice true x y z = refl
    twice false x y z = refl

    swap :
        (a b : Bool) (x y z : Option Value)
        → (a ≡ true → b ≡ true → x ≡ y)
        → (if a then x else (if b then y else z)) ≡ (if b then y else (if a then x else z))
    swap true true x y z h = h refl refl
    swap true false x y z h = refl
    swap false true x y z h = refl
    swap false false x y z h = refl

    differ : (u == p.0) ≡ false → p.0 ≡ tag → u ≡ tag → ⊥
    differ e a b = ground (arith, e, a, b)

-- The size that is written for a value: of the tag of RAF data it counts numbers of 32 bits, of any
-- other tag it counts bytes.
abbrev pub size_of : Value → ℕ
size_of (int_value n) = 4
size_of (bytes_value bytes) = length bytes
size_of (u32s_value values) = length values

abbrev pub tag_bytes : Value → List ℕ
tag_bytes (int_value n) = u32_bytes big_endian n
tag_bytes (bytes_value bytes) = bytes
tag_bytes (u32s_value values) = packed (u32_bytes little_endian) values

abbrev pub IsTagValue : ℕ → Value → Type 0
IsTagValue tag (int_value n) = n < 2 ^ 32
IsTagValue tag (bytes_value bytes) =
    (length bytes ≢ 4) × (length bytes < 2 ^ 16) × (1 ≤ length bytes) × (tag ≢ tag_raf_data)
IsTagValue tag (u32s_value values) =
    (length values ≢ 4)
    × (length values < 2 ^ 16)
    × (1 ≤ length values)
    × (tag ≡ tag_raf_data)
    × All (λ x. x < 2 ^ 32) values

abbrev pub IsTagged : ℕ × Value → Type 0
IsTagged p = (p.0 < 2 ^ 16) × IsTagValue p.0 p.1

abbrev pub tagged_bytes : List (ℕ × Value) → List ℕ
tagged_bytes [] = []
tagged_bytes (p ∷ ps) =
    u16_bytes big_endian p.0
    ++ (u16_bytes big_endian (size_of p.1) ++ (tag_bytes p.1 ++ tagged_bytes ps))

-- The last value of a tag, and `acc` where there is none.
abbrev pub last_value : ℕ → List (ℕ × Value) → Option Value → Option Value
last_value tag [] acc = acc
last_value tag (p ∷ ps) acc = last_value tag ps (if p.0 == tag then some p.1 else acc)

abbrev insert_tags : List (ℕ × Value) → List (ℕ × Value) → List (ℕ × Value)
insert_tags [] tags = tags
insert_tags (p ∷ ps) tags = insert_tags ps (insert p.0 p.1 tags)

get_tag-insert_tags :
    (tag : ℕ) (ps tags : List (ℕ × Value))
    → get_tag tag (insert_tags ps tags) ≡ last_value tag ps (get_tag tag tags)
get_tag-insert_tags tag [] tags = refl
get_tag-insert_tags tag (p ∷ ps) tags =
    get_tag-insert_tags tag ps (insert p.0 p.1 tags)
    ∙ ap (last_value tag ps) (get_tag-insert tag p.0 p.1 tags)

length-packed_u32 : (xs : List ℕ) → length (packed (u32_bytes little_endian) xs) ≡ 4 * length xs
length-packed_u32 [] = refl
length-packed_u32 (x ∷ xs) =
    length-append (u32_bytes little_endian x) (packed (u32_bytes little_endian) xs)
    ∙ omega (arith, length-packed_u32 xs)

size_of-lt : (tag : ℕ) (v : Value) → IsTagValue tag v → size_of v < 2 ^ 16
size_of-lt tag (int_value n) h = omega arith
size_of-lt tag (bytes_value bytes) h = h.1
size_of-lt tag (u32s_value values) h = h.1

module _ (c : ByteOrderCrate) (laws : IsByteOrder c) (bytes : List ℕ) where
  -- A value that was read, with the place behind it.
  record HasValue (value : Value) (rest : List ℕ) (m : Result (Value × View)) : Type 0 where
    place : ℕ
    returns : m ≡ ok (value, at bytes place)
    left : drop place bytes ≡ rest

  read_tag_value-tag_bytes :
      (tag p : ℕ) (v : Value) (rest : List ℕ)
      → IsTagValue tag v
      → drop p bytes ≡ tag_bytes v ++ rest
      → HasValue v rest (read_tag_value c tag (size_of v) (at bytes p))
  unfolding read_tag_value be_u32 read_u32_into
  read_tag_value-tag_bytes tag p (int_value n) rest h there =
      let (r, d) = view_u32-at bytes c laws big_endian p n rest h there in
      record { place = p + 4; returns = rw r refl; left = d }
  read_tag_value-tag_bytes tag p (bytes_value b) rest h there =
      let fits = fits_lem bytes p (length b) b rest h.2 refl there in
      record {
        place = p + length b;
        returns =
            rw
              (
                ne→== (length b) 4 h.0,
                ne→== tag tag_raf_data h.3,
                view_read-at bytes p (length b) b rest refl fits there,
              )
              refl;
        left = behind bytes p (length b) b rest refl there;
      }
  read_tag_value-tag_bytes tag p (u32s_value vs) rest h there =
      let data_ = packed (u32_bytes little_endian) vs in
      let count = length-packed_u32 vs in
      let fits = fits_lem bytes p (4 * length vs) data_ rest (omega (arith, h.2)) count there in
      let units =
        read_units-packed (c.read_u32 little_endian) 4 (u32_bytes little_endian) (λ x. x < 2 ^ 32)
          (length-u32_bytes little_endian) (laws.reads_u32 little_endian) vs [] [] 0 refl h.4 in
      let whole : data_ ++ [] ≡ data_ = append-nil data_ in
      let plain =
        ap (λ t. read_units (c.read_u32 little_endian) 4 t (length vs) 0) (sym whole) ∙ units in
      let is_data : (tag == tag_raf_data) ≡ true = (==_iff tag tag_raf_data).1 h.3 in
      record {
        place = p + 4 * length vs;
        returns =
            rw
              (
                ne→== (length vs) 4 h.0,
                is_data,
                view_read-at bytes p (4 * length vs) data_ rest count fits there,
                plain,
              )
              refl;
        left = behind bytes p (4 * length vs) data_ rest count there;
      }

  read_tags-tagged_bytes :
      (ps tags : List (ℕ × Value)) (p : ℕ) (rest : List ℕ)
      → All IsTagged ps
      → drop p bytes ≡ tagged_bytes ps ++ rest
      → read_tags c (length ps) tags (at bytes p) ≡ ok (insert_tags ps tags)
  unfolding read_tags
  read_tags-tagged_bytes [] tags p rest h there = refl
  read_tags-tagged_bytes (w ∷ ps) tags p rest h there =
      let t = u16_bytes big_endian w.0 in
      let s = u16_bytes big_endian (size_of w.1) in
      let b = tag_bytes w.1 in
      let start : drop p bytes ≡ t ++ (s ++ (b ++ (tagged_bytes ps ++ rest))) =
        there
        ∙ append_assoc t (s ++ (b ++ tagged_bytes ps)) rest
        ∙ ap (λ x. t ++ x)
            (append_assoc s (b ++ tagged_bytes ps) rest
              ∙ ap (λ x. s ++ x) (append_assoc b (tagged_bytes ps) rest)) in
      let (r1, d1) = view_u16-at bytes c laws big_endian p w.0 _ h.0.0 start in
      let (r2, d2) =
        view_u16-at bytes c laws big_endian (p + 2) (size_of w.1) _ (size_of-lt w.0 w.1 h.0.1) d1 in
      let v = read_tag_value-tag_bytes w.0 (p + 2 + 2) w.1 (tagged_bytes ps ++ rest) h.0.1 d2 in
      rw (r1, r2, v.returns)
        (read_tags-tagged_bytes ps (insert w.0 w.1 tags) v.place rest h.1 v.left)

  -- With a byte order that does what the crate documents: where a file has a container of fewer than
  -- 2^32 values, `load` of the container returns a map in which every tag finds the last of its
  -- values. A value of the tag of RAF data has four bytes for each unit of its size, and one of any
  -- other tag one byte; a size of 4 is a number.
  pub load_meta-tagged_bytes :
      (ps : List (ℕ × Value)) (p : ℕ) (rest : List ℕ)
      → All IsTagged ps
      → length ps < 2 ^ 32
      → drop p bytes ≡ u32_bytes big_endian (length ps) ++ (tagged_bytes ps ++ rest)
      → (tags : List (ℕ × Value)) × (load_meta c (at bytes p) ≡ ok tags)
        × ((tag : ℕ) → get_tag tag tags ≡ last_value tag ps none)
  unfolding load_meta be_u32 get_tag
  load_meta-tagged_bytes ps p rest h few there =
      let (r, d) = view_u32-at bytes c laws big_endian p (length ps) _ few there in
      (
        insert_tags ps [],
        rw (r, read_tags-tagged_bytes ps [] (p + 4) rest h d) refl,
        λ tag. get_tag-insert_tags tag ps [],
      )
