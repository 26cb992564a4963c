-- ===== src/Decompress/Tiled/Rows.antt =====
-- One row of a tile in the picture.
use native.Mathlib.Nat.{mul-le-mul_right}
use libopenraw.Prelude.{
  ℕ, suc, ◌+◌, ◌-◌, ◌*◌, ◌≤◌, ◌<◌, ◌≡◌, ◌⊎◌, ◌≢◌, Bool-cases, ltb, ltb→lt, ltb→ge, inl, inr, refl,
  ap, ◌∙◌, List, ◌++◌, length, length-take, length-drop, length-append, take, drop, get_elem?,
  get_elem?-take, get_elem?-drop_add, get_elem?-append_left, get_elem?-append_right, ok, le→leb,
  arith,
}
use libopenraw.Decompress.Tiled.{subslice, copy_to}

pub subslice_lem :
    (xs : List ℕ) (pos n : ℕ) → pos + n ≤ length xs → subslice xs pos n ≡ ok (take n (drop pos xs))
unfolding subslice
subslice_lem xs pos n h =
    rw
      (
        le→leb pos (length xs) (omega (arith, h)),
        le→leb n (length (drop pos xs)) (omega (arith, h, length-drop pos xs)),
      )
      refl

pub get_elem?-subslice :
    (xs : List ℕ) (pos n k : ℕ)
    → k < n
    → get_elem? (take n (drop pos xs)) k ≡ get_elem? xs (pos + k)
get_elem?-subslice xs pos n k h = get_elem?-take (drop pos xs) n k h ∙ get_elem?-drop_add xs pos k

-- What a copy leaves: the values in their place, and the rest as it was.
pub record IsCopied (xs : List ℕ) (pos : ℕ) (values ys : List ℕ) : Type 0 where
  pub size : length ys ≡ length xs
  pub inside : (k : ℕ) → k < length values → get_elem? ys (pos + k) ≡ get_elem? values k
  pub outside : (i : ℕ) → (i < pos) ⊎ (pos + length values ≤ i) → get_elem? ys i ≡ get_elem? xs i

pub copy_to-IsCopied :
    (xs : List ℕ) (pos : ℕ) (values : List ℕ)
    → pos + length values ≤ length xs
    → (ys : List ℕ) × (copy_to xs pos values ≡ ok ys) × IsCopied xs pos values ys
unfolding copy_to
copy_to-IsCopied xs pos values h = (
  take pos xs ++ values ++ drop (pos + length values) xs,
  rw
      (
        le→leb pos (length xs) (omega (arith, h)),
        le→leb (length values) (length (drop pos xs)) (omega (arith, h, length-drop pos xs)),
      )
      refl,
  record {
    size =
        length-append (take pos xs ++ values) tail
        ∙ omega (
          arith,
          length-append (take pos xs) values,
          front,
          length-drop (pos + length values) xs,
          h,
        );
    inside = λ k less.
        get_elem?-append_left (take pos xs ++ values) tail (pos + k)
          (omega (arith, length-append (take pos xs) values, front, less))
        ∙ get_elem?-append_right (take pos xs) values (pos + k) k (omega (arith, front));
    outside = outside_lem;
  },
)
  where
    tail : List ℕ
    tail = drop (pos + length values) xs

    front : length (take pos xs) ≡ pos
    front = omega (arith, length-take pos xs, h)

    outside_lem :
        (i : ℕ)
        → (i < pos) ⊎ (pos + length values ≤ i)
        → get_elem? (take pos xs ++ values ++ tail) i ≡ get_elem? xs i
    outside_lem i (inl before) =
        get_elem?-append_left (take pos xs ++ values) tail i
          (omega (arith, length-append (take pos xs) values, front, before))
        ∙ get_elem?-append_left (take pos xs) values i (omega (arith, front, before))
        ∙ get_elem?-take xs pos i before
    outside_lem i (inr after) =
        get_elem?-append_right (take pos xs ++ values) tail i (i - (pos + length values))
          (omega (arith, length-append (take pos xs) values, front, after))
        ∙ get_elem?-drop_add xs (pos + length values) (i - (pos + length values))
        ∙ ap (get_elem? xs) (omega (arith, after))

pub row_le : (y y0 w : ℕ) → y < y0 → y * w + w ≤ y0 * w
row_le y y0 w h = omega (arith, mul-le-mul_right w h, suc_mul)
  where
    suc_mul : suc y * w ≡ y * w + w
    suc_mul = grind arith

pub three_way : (a b : ℕ) → (a < b) ⊎ ((b < a) ⊎ (a ≡ b))
three_way a b = elim (Bool-cases (ltb a b)) [
  | inl e ↦ inl (ltb→lt a b e)
  | inr e ↦ elim (Bool-cases (ltb b a)) [
    | inl f ↦ inr (inl (ltb→lt b a f))
    | inr f ↦ inr (inr (omega (arith, ltb→ge a b e, ltb→ge b a f)))
  ]
]

-- A place outside a run of columns of one row, in a picture of the width `w`.
pub outside_run :
    (w y0 fc n y x : ℕ)
    → fc + n ≤ w
    → x < w
    → (y ≢ y0) ⊎ ((x < fc) ⊎ (fc + n ≤ x))
    → (y * w + x < y0 * w + fc) ⊎ (y0 * w + fc + n ≤ y * w + x)
outside_run w y0 fc n y x fits inside other = elim (three_way y y0) [
  | inl above ↦ inl (omega (arith, row_le y y0 w above, inside))
  | inr (inl below) ↦ inr (omega (arith, row_le y0 y w below, fits))
  | inr (inr same) ↦ beside same other
]
  where
    beside :
        y ≡ y0
        → (y ≢ y0) ⊎ ((x < fc) ⊎ (fc + n ≤ x))
        → (y * w + x < y0 * w + fc) ⊎ (y0 * w + fc + n ≤ y * w + x)
    beside same (inl ne) = absurd (ne same)
    beside same (inr (inl before)) = inl (rw same (omega (arith, before)))
    beside same (inr (inr after)) = inr (rw same (omega (arith, after)))

-- A row of the picture with some columns written.
pub record IsRowWritten (w : ℕ) (xs : List ℕ) (y0 fc : ℕ) (values ys : List ℕ) : Type 0 where
  pub size : length ys ≡ length xs
  pub written : (k : ℕ) → k < length values → get_elem? ys (y0 * w + (fc + k)) ≡ get_elem? values k
  pub kept :
      (y x : ℕ)
      → x < w
      → (y ≢ y0) ⊎ ((x < fc) ⊎ (fc + length values ≤ x))
      → get_elem? ys (y * w + x) ≡ get_elem? xs (y * w + x)

pub copy_to-IsRowWritten :
    (w h : ℕ) (xs : List ℕ) (y0 fc : ℕ) (values : List ℕ)
    → length xs ≡ h * w
    → y0 < h
    → fc + length values ≤ w
    → (ys : List ℕ) × (copy_to xs (y0 * w + fc) values ≡ ok ys) × IsRowWritten w xs y0 fc values ys
copy_to-IsRowWritten w h xs y0 fc values size low fits =
    let (ys, returns, c) =
      copy_to-IsCopied xs (y0 * w + fc) values (omega (arith, row_le y0 h w low, size, fits)) in
    (
      ys,
      returns,
      record {
        size = c.size;
        written = λ k less. ap (get_elem? ys) (omega arith) ∙ c.inside k less;
        kept = λ y x inside other.
            c.outside (y * w + x) (outside_run w y0 fc (length values) y x fits inside other);
      },
    )
