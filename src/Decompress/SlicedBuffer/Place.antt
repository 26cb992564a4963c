-- ===== src/Decompress/SlicedBuffer/Place.antt =====
-- The layout that the slices describe: where the n-th value of the stream belongs in the picture,
-- and which value a pixel of the picture holds.
use native.Mathlib.Nat.{div-add-mod', mod-lt}
use libopenraw.Prelude.{
  ℕ, ◌+◌, ◌-◌, ◌*◌, ◌/◌, ◌%◌, ◌≤◌, ◌<◌, ◌≡◌, inl, inr, refl, sym, ap, ◌∙◌, List, [], ◌∷◌, ◌++◌, ltb,
  lt→ltb, ge→ltb, Bool-cases, if◌then◌else◌, mod_unique, div_unique, arith, ltb→lt, ltb→ge,
}

abbrev pub sum : List ℕ → ℕ
sum [] = 0
sum (w ∷ ws) = w + sum ws

pub sum-append : (xs ys : List ℕ) → sum (xs ++ ys) ≡ sum xs + sum ys
sum-append [] ys = omega arith
sum-append (x ∷ xs) ys = omega (arith, sum-append xs ys)

abbrev pub IsPositive : ℕ → Type 0
IsPositive w = 0 < w

pub in_range : (row column w height : ℕ) → row < height → column < w → row * w + column < w * height
in_range row column w height h k = grind arith

row_of_value : (n w height : ℕ) → n < w * height → (0 < w) × (n / w < height)
row_of_value n w height h = grind arith

module _ (width height : ℕ) where
  -- A slice holds its rows one after the other; the slices to its left take `offset` columns.
  unfoldable pub place_from : ℕ → List ℕ → ℕ → ℕ
  place_from offset [] n = offset
  place_from offset (w ∷ ws) n =
      if ltb n (w * height)
      then n / w * width + (offset + n % w)
      else place_from (offset + w) ws (n - w * height)

  -- The number in the stream of the value at a row and a column right of `offset`.
  unfoldable pub source_from : List ℕ → ℕ → ℕ → ℕ
  source_from [] row column = 0
  source_from (w ∷ ws) row column =
      if ltb column w then row * w + column else w * height + source_from ws row (column - w)

  -- Column `offset + column` of a row lies in the slice that holds `column`.
  pub place-source :
      (ws : List ℕ) (offset row column : ℕ)
      → column < sum ws
      → row < height
      → place_from offset ws (source_from ws row column) ≡ row * width + (offset + column)
  unfolding place_from source_from
  place-source [] offset row column h k = elim h [ ]
  place-source (w ∷ ws) offset row column h k = elim (Bool-cases (ltb column w)) [
    | inl here ↦
        let inside = ltb→lt _ _ here in
        rw (
          here,
          lt→ltb (row * w + column) (w * height) (in_range row column w height k inside),
          div_unique row w column inside,
          mod_unique row w column inside,
        )
    | inr right ↦
        let past = ltb→ge _ _ right in
        let n = source_from ws row (column - w) in
        let back : w * height + n - w * height ≡ n = omega arith in
        rw (right, ge→ltb (w * height + n) (w * height) (omega arith), back)
          (place-source ws (offset + w) row (column - w) (omega arith) k ∙ omega arith)
  ]

  -- Every number of the stream is the source of one pixel, where it is placed.
  pub record IsPlaced (offset : ℕ) (ws : List ℕ) (n : ℕ) : Type 0 where
    pub row : ℕ
    pub column : ℕ
    pub row_fits : row < height
    pub column_fits : column < sum ws
    pub source_eq : source_from ws row column ≡ n
    pub place_eq : place_from offset ws n ≡ row * width + (offset + column)

  pub place_cases : (ws : List ℕ) (offset n : ℕ) → n < sum ws * height → IsPlaced offset ws n
  unfolding place_from source_from
  place_cases [] offset n h = absurd (omega arith)
  place_cases (w ∷ ws) offset n h = elim (Bool-cases (ltb n (w * height))) [
    | inl here ↦
        let (pos, fits) = row_of_value n w height (ltb→lt _ _ here) in
        record {
          row = n / w;
          column = n % w;
          row_fits = fits;
          column_fits = omega (arith, mod-lt n pos);
          source_eq = rw (lt→ltb (n % w) w (mod-lt n pos)) (div-add-mod' n w);
          place_eq = rw here refl;
        }
    | inr right ↦
        let past = ltb→ge _ _ right in
        let rest = place_cases ws (offset + w) (n - w * height) (omega arith) in
        let back : w + rest.column - w ≡ rest.column = omega arith in
        record {
          row = rest.row;
          column = w + rest.column;
          row_fits = rest.row_fits;
          column_fits = omega (arith, rest.column_fits);
          source_eq =
              rw (ge→ltb (w + rest.column) w (omega arith), back) (omega (arith, rest.source_eq));
          place_eq = rw right (omega (arith, rest.place_eq));
        }
  ]

  pub source-lt :
      (ws : List ℕ) (row column : ℕ)
      → column < sum ws
      → row < height
      → source_from ws row column < sum ws * height
  unfolding source_from
  source-lt [] row column h k = elim h [ ]
  source-lt (w ∷ ws) row column h k = elim (Bool-cases (ltb column w)) [
    | inl here ↦ rw here (omega (arith, in_range row column w height k (ltb→lt _ _ here)))
    | inr right ↦ rw right (
        omega (
          arith,
          ltb→ge _ _ right,
          source-lt ws row (column - w) (omega (arith, ltb→ge _ _ right)) k,
        ))
  ]

  -- No two values have one place.
  pub place-injective :
      (ws : List ℕ) (n m : ℕ)
      → sum ws ≤ width
      → n < sum ws * height
      → m < sum ws * height
      → place_from 0 ws n ≡ place_from 0 ws m
      → n ≡ m
  place-injective ws n m fits hn hm e =
      let a = place_cases ws 0 n hn in
      let b = place_cases ws 0 m hm in
      let same : a.row * width + a.column ≡ b.row * width + b.column =
        omega (arith, e, a.place_eq, b.place_eq) in
      let inside_a : a.column < width = omega (arith, a.column_fits) in
      let inside_b : b.column < width = omega (arith, b.column_fits) in
      let rows : a.row ≡ b.row =
        sym (div_unique a.row width a.column inside_a)
        ∙ ap (λ t. t / width) same
        ∙ div_unique b.row width b.column inside_b in
      let columns : a.column ≡ b.column =
        sym (mod_unique a.row width a.column inside_a)
        ∙ ap (λ t. t % width) same
        ∙ mod_unique b.row width b.column inside_b in
      sym a.source_eq
      ∙ ap (λ r. source_from ws r a.column) rows
      ∙ ap (source_from ws b.row) columns
      ∙ b.source_eq
