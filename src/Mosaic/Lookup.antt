-- ===== src/Mosaic/Lookup.antt =====
-- Looking up a colour in a pattern that was read from bytes.
use libopenraw.Prelude.{
  ℕ, zero, suc, ◌+◌, ◌*◌, ◌≡◌, refl, sym, ◌∙◌, Bool, true, false, ◌&&◌, Option, List, [], ◌∷◌,
  length, Result, ok, err, panic, other, index, ltb, After, After-ok, subst, ne→==, require, ◌>>=◌,
  lt→ltb, ge→ltb, ◌==◌, arith, if◌then◌else◌, get_or,
}
use libopenraw.Mosaic.{
  Pattern, PatternColour, pattern, width, height, colour_at, colour_code, codes, try_from,
  try_bayer, take_colours, is_same, red, green, blue, empty, rggb, gbrg, bggr, grbg, non_rgb22,
}
use libopenraw.Mosaic.Codes.{IsDerived, IsCodable, length-codes, codes-try_from}

-- The code of a colour that was found.
abbrev pub code_of : Result PatternColour → Result ℕ
code_of (ok colour) = ok (colour_code colour)
code_of (err e) = err e
code_of panic = panic

-- The columns and rows of a pattern of so many bytes.
abbrev pub side : ℕ → ℕ
side n = if n == 4 then 2 else 6

-- The byte of a column and row in `v`, where there is one.
abbrev pub code_at : List ℕ → ℕ → ℕ → Result ℕ
code_at v x y =
    if ltb x (side (length v))
      && (ltb y (side (length v)) && ltb (y * side (length v) + x) (length v))
    then ok (get_or v (y * side (length v) + x) 0)
    else panic

-- What `try_from` returns has a colour for each byte, and is a list only where there are not 4.
either :
    {A : Type 0} (P : A → Type 0) (b : Bool) (m n : Result A)
    → (b ≡ true → After P m)
    → (b ≡ false → After P n)
    → After P (if b then m else n)
either P true m n h k = h refl
either P false m n h k = k refl

bayer_IsCodable :
    (a b c d : Bool)
    → After IsCodable (
        if a
        then ok rggb
        else if b
        then ok gbrg
        else if c
        then ok grbg
        else if d
        then ok bggr
        else err other)
bayer_IsCodable true b c d = tt
bayer_IsCodable false true c d = tt
bayer_IsCodable false false true d = tt
bayer_IsCodable false false false true = tt
bayer_IsCodable false false false false = tt

module _ (f : ℕ → Option PatternColour) (v : List ℕ) where
  try_bayer-IsCodable : After IsCodable (try_bayer v)
  unfolding try_bayer
  try_bayer-IsCodable =
      bayer_IsCodable (is_same v (codes (red ∷ green ∷ green ∷ blue ∷ [])))
        (is_same v (codes (green ∷ blue ∷ red ∷ green ∷ [])))
        (is_same v (codes (green ∷ red ∷ blue ∷ green ∷ [])))
        (is_same v (codes (blue ∷ green ∷ green ∷ red ∷ [])))

  try_from-IsCodable : After IsCodable (try_from f v)
  unfolding try_from
  try_from-IsCodable =
      let colours = take_colours f v in
      let listed = if length colours == length v then ok (non_rgb22 colours) else err other in
      either IsCodable (length v == 4) (try_bayer v) listed (λ _. try_bayer-IsCodable)
        (λ long.
          either IsCodable (length colours == length v) (ok (non_rgb22 colours)) (err other)
            (λ all e. absurd (ground (arith, long, all, e))) (λ _. tt))

-- The width and height that the number of bytes stands for.
sides :
    (p : Pattern)
    → IsCodable p
    → (width p ≡ side (length (codes (pattern p)))) × (height p ≡ side (length (codes (pattern p))))
unfolding width height pattern
sides empty h = absurd h
sides rggb h = (refl, refl)
sides gbrg h = (refl, refl)
sides bggr h = (refl, refl)
sides grbg h = (refl, refl)
sides (non_rgb22 cs) h =
    let six : (length (codes cs) == 4) ≡ false =
      ne→== (length (codes cs)) 4 (λ e. h (sym (length-codes cs) ∙ e)) in
    (rw six refl, rw six refl)

code_of-index :
    (cs : List PatternColour) (i : ℕ)
    → code_of (index cs i)
      ≡ (if ltb i (length (codes cs)) then ok (get_or (codes cs) i 0) else panic)
unfolding index
code_of-index [] i = rw (ge→ltb i 0 (omega arith)) refl
code_of-index (c ∷ cs) zero = rw (lt→ltb 0 (suc (length (codes cs))) (omega arith)) refl
code_of-index (c ∷ cs) (suc i) = rw (suc_lem i (length (codes cs))) (code_of-index cs i)
  where
    suc_lem : (m n : ℕ) → ltb (suc m) (suc n) ≡ ltb m n
    suc_lem m n = ground arith

guarded :
    (a b d : Bool) (m : Result PatternColour) (n : Result ℕ)
    → code_of m ≡ (if d then n else panic)
    → code_of (require a >>= λ _. require b >>= λ _. m) ≡ (if a && (b && d) then n else panic)
guarded true true d m n e = e
guarded true false d m n e = refl
guarded false b d m n e = refl

colour_at-codes :
    (p : Pattern) (x y : ℕ)
    → IsCodable p
    → code_of (colour_at p (x, y)) ≡ code_at (codes (pattern p)) x y
unfolding colour_at
colour_at-codes p x y h =
    let bytes = codes (pattern p) in
    let i = y * side (length bytes) + x in
    let (columns, rows) = sides p h in
    rw (columns, rows)
      (guarded (ltb x (side (length bytes))) (ltb y (side (length bytes))) (ltb i (length bytes))
        (index (pattern p) i) (ok (get_or bytes i 0)) (code_of-index (pattern p) i))

module _ (f : ℕ → Option PatternColour) where
  -- With the function that num_enum derives: where `try_from` reads a pattern from bytes, 4 of them
  -- stand for 2 columns and 2 rows, and any other number for 6 and 6. Looking up a colour inside
  -- returns the one whose code is the byte at `y` times the columns plus `x`, and panics where there is
  -- no such byte. Looking one up outside panics.
  pub colour_at-try_from :
      (v : List ℕ) (p : Pattern) (x y : ℕ)
      → IsDerived f
      → try_from f v ≡ ok p
      → code_of (colour_at p (x, y)) ≡ code_at v x y
  colour_at-try_from v p x y d e =
      let codable = After-ok IsCodable (try_from f v) p (try_from-IsCodable f v) e in
      subst (λ w. code_of (colour_at p (x, y)) ≡ code_at w x y) (codes-try_from f v p d e)
        (colour_at-codes p x y codable)
