-- ===== src/Thumbnail/Loaded.antt =====
-- What `make_thumbnail` loads.
use libopenraw.Prelude.{
  ℕ, ◌+◌, ◌-◌, ◌^◌, ◌≤◌, ◌<◌, ◌≡◌, refl, ap, inl, inr, List, [], ◌∷◌, zero, suc, le→leb, gt→leb,
  ltb, lt→ltb, ltb→lt, ltb→ge, Bool-cases, if◌then◌else◌, length, length-drop, take, drop, ok,
  panic, arith,
}
use libopenraw.Io.{View, seek, view_read}
use libopenraw.Thumbnail.{readjusted, make_thumbnail}

take-all : (n m : ℕ) (xs : List ℕ) → length xs ≤ n → length xs ≤ m → take n xs ≡ take m xs
take-all zero zero xs h k = refl
take-all zero (suc m) [] h k = refl
take-all zero (suc m) (x ∷ xs) h k = absurd (omega (arith, h))
take-all (suc n) zero [] h k = refl
take-all (suc n) zero (x ∷ xs) h k = absurd (omega (arith, k))
take-all (suc n) (suc m) [] h k = refl
take-all (suc n) (suc m) (x ∷ xs) h k =
    ap (λ t. x ∷ t) (take-all n m xs (omega (arith, h)) (omega (arith, k)))

readjusted_lem :
    (offset len : ℕ) (view : View)
    → offset + len < 2 ^ 64
    → offset ≤ length view.bytes
    → (n : ℕ) × (readjusted offset len view ≡ ok n)
      × (offset + n ≤ length view.bytes)
      × (take n (drop offset view.bytes) ≡ take len (drop offset view.bytes))
unfolding readjusted
readjusted_lem offset len view small inside =
    elim (Bool-cases (ltb (length view.bytes) (offset + len))) [
      | inl e ↦
          let over = ltb→lt (length view.bytes) (offset + len) e in
          let size = length-drop offset view.bytes in
          (
            length view.bytes - offset,
            rw (lt→ltb (offset + len) (2 ^ 64) small, e, le→leb offset (length view.bytes) inside)
                refl,
            omega (arith, inside),
            take-all (length view.bytes - offset) len (drop offset view.bytes) (omega (arith, size))
                (omega (arith, size, over)),
          )
      | inr e ↦ (
        len,
        rw (lt→ltb (offset + len) (2 ^ 64) small, e) refl,
        ltb→ge (length view.bytes) (offset + len) e,
        refl,
      )
    ]

-- Where the offset and the length add up to a u64: an offset in the view or at its end gives the
-- bytes from there, as many as the length says or as there are, and an offset behind the end panics.
pub make_thumbnail_outcome :
    (offset len : ℕ) (view : View)
    → offset + len < 2 ^ 64
    → make_thumbnail offset len view
      ≡ (if ltb (length view.bytes) offset then panic else ok (take len (drop offset view.bytes)))
unfolding make_thumbnail seek view_read
make_thumbnail_outcome offset len view small = elim (Bool-cases (ltb (length view.bytes) offset)) [
  | inl e ↦
      let past = ltb→lt (length view.bytes) offset e in
      let over : length view.bytes < offset + len = omega (arith, past) in
      let fails : readjusted offset len view ≡ panic =
        unfold readjusted in
        rw
          (
            lt→ltb (offset + len) (2 ^ 64) small,
            lt→ltb (length view.bytes) (offset + len) over,
            gt→leb offset (length view.bytes) past,
          )
          refl in
      rw (fails, e) refl
  | inr e ↦
      let inside = ltb→ge (length view.bytes) offset e in
      let (n, known, fits, same) = readjusted_lem offset len view small inside in
      rw (known, e, le→leb (offset + n) (length view.bytes) fits) (ap ok same)
]
