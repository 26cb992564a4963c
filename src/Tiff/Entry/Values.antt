-- ===== src/Tiff/Entry/Values.antt =====
-- The numbers that were written are read back.
use libopenraw.Prelude.{
  ℕ, suc, ◌+◌, ◌*◌, ◌^◌, ◌<◌, ◌≡◌, ◌⊎◌, inl, inr, refl, sym, ap, ◌∙◌, List, [], ◌∷◌, ◌++◌,
  append_assoc, subst, length-append, length, drop, drop-length, All, some, Result, ok, arith,
}
use libopenraw.Io.{
  ByteOrder, big_endian, little_endian, ByteOrderCrate, IsByteOrder, endian_of, u16_bytes,
  u32_bytes,
}
use libopenraw.Tiff.Exif.{tag_type}
use libopenraw.Tiff.Entry.{Entry, as_slice, by_endian, read_units, uint_values, uint_value_array}
use libopenraw.Tiff.Entry.Arrays.{slice_from_lem}

-- Values one behind the other.
abbrev pub packed : (ℕ → List ℕ) → List ℕ → List ℕ
packed bytes_of [] = []
packed bytes_of (x ∷ xs) = bytes_of x ++ packed bytes_of xs

-- The data of an entry of SHORT or LONG numbers, with what may follow them.
abbrev pub AreNumbers : ByteOrder → Entry → List ℕ → List ℕ → Type 0
AreNumbers o e vs rest =
    ((e.type_ ≡ 3)
      × All (λ x. x < 2 ^ 16) vs
      × (as_slice e.data_bytes ≡ packed (u16_bytes o) vs ++ rest))
    ⊎ ((e.type_ ≡ 4)
        × All (λ x. x < 2 ^ 32) vs
        × (as_slice e.data_bytes ≡ packed (u32_bytes o) vs ++ rest))

module _ (read : List ℕ → Result ℕ) (unit : ℕ) (bytes_of : ℕ → List ℕ) (P : ℕ → Type 0)
    (size : (x : ℕ) → length (bytes_of x) ≡ unit)
    (inverse : (x : ℕ) (rest : List ℕ) → P x → read (bytes_of x ++ rest) ≡ ok x) where
  pub read_units-packed :
      (vs front rest : List ℕ) (index : ℕ)
      → length front ≡ unit * index
      → All P vs
      → read_units read unit (front ++ (packed bytes_of vs ++ rest)) (length vs) index ≡ ok vs
  unfolding read_units
  read_units-packed [] front rest index at h = refl
  read_units-packed (x ∷ vs) front rest index at h =
      let tail : List ℕ = packed bytes_of vs ++ rest in
      let whole : List ℕ = front ++ (bytes_of x ++ tail) in
      let next : unit * (index + 1) ≡ unit * index + unit = grind arith in
      let here : drop (unit * index) whole ≡ bytes_of x ++ tail =
        drop-length front (bytes_of x ++ tail) (unit * index) (sym at) in
      let others =
        read_units-packed vs (front ++ bytes_of x) rest (index + 1)
          (omega (arith, length-append front (bytes_of x), size x, at, next)) h.1 in
      let same : front ++ (packed bytes_of (x ∷ vs) ++ rest) ≡ whole =
        ap (λ t. front ++ t) (append_assoc (bytes_of x) (packed bytes_of vs) rest) in
      let later =
        subst (λ t. read_units read unit t (length vs) (index + 1) ≡ ok vs)
          (append_assoc front (bytes_of x) tail) others in
      subst (λ t. read_units read unit t (suc (length vs)) index ≡ ok (x ∷ vs)) (sym same)
        (rw
          (
            slice_from_lem whole (unit * index)
                (omega (arith, length-append front (bytes_of x ++ tail), at)),
            here,
            inverse x tail h.0,
            later,
          )
          refl)

pub by_endian-endian_of :
    {A : Type 0} (o : ByteOrder) (f : ByteOrder → Result A) → by_endian (endian_of o) f ≡ f o
unfolding by_endian endian_of
by_endian-endian_of big_endian f = refl
by_endian-endian_of little_endian f = refl

pub length-u16_bytes : (o : ByteOrder) (x : ℕ) → length (u16_bytes o x) ≡ 2
length-u16_bytes big_endian x = refl
length-u16_bytes little_endian x = refl

pub length-u32_bytes : (o : ByteOrder) (x : ℕ) → length (u32_bytes o x) ≡ 4
length-u32_bytes big_endian x = refl
length-u32_bytes little_endian x = refl

module _ (c : ByteOrderCrate) (laws : IsByteOrder c) (o : ByteOrder) where
  -- With a byte order that does what the crate documents: an entry whose data starts with as many
  -- values as it counts, each as two bytes in the order of the file for the type SHORT, or four for
  -- LONG, gives these values.
  pub uint_value_array-packed :
      (e : Entry) (vs rest : List ℕ)
      → e.count ≡ length vs
      → AreNumbers o e vs rest
      → uint_value_array c e (endian_of o) ≡ ok (some vs)
  unfolding uint_value_array uint_values tag_type
  uint_value_array-packed e vs rest count (inl (kind, small, written)) =
      rw
        (
          kind,
          count,
          written,
          read_units-packed (λ from. by_endian (endian_of o) (λ p. c.read_u16 p from)) 2
              (u16_bytes o) (λ x. x < 2 ^ 16) (length-u16_bytes o)
              (λ x more h.
                by_endian-endian_of o (λ p. c.read_u16 p (u16_bytes o x ++ more))
                ∙ laws.reads_u16 o x more h)
              vs [] rest 0 refl small,
        )
        refl
  uint_value_array-packed e vs rest count (inr (kind, small, written)) =
      rw
        (
          kind,
          count,
          written,
          read_units-packed (λ from. by_endian (endian_of o) (λ p. c.read_u32 p from)) 4
              (u32_bytes o) (λ x. x < 2 ^ 32) (length-u32_bytes o)
              (λ x more h.
                by_endian-endian_of o (λ p. c.read_u32 p (u32_bytes o x ++ more))
                ∙ laws.reads_u32 o x more h)
              vs [] rest 0 refl small,
        )
        refl
