-- ===== src/Mosaic/Codes.antt =====
-- Patterns and their bytes.
use libopenraw.Prelude.{
  ℕ, suc, ◌≡◌, ◌≢◌, ne→==, eq→==, ==_iff, subst, if◌then◌else◌, refl, sym, ap, ◌∙◌, Bool-cases, inl,
  inr, Option, none, some, List, [], ◌∷◌, length, Result, ok, err, other, ◌==◌, arith, Bool, true,
  false, ◌&&◌,
}
use libopenraw.Mosaic.{
  Pattern, PatternColour, pattern, colour_code, codes, try_bayer, try_from, take_colours, is_same,
  keep, empty, rggb, gbrg, bggr, grbg, non_rgb22,
}

-- What num_enum documents of the derived function: it knows the code of every colour, and what it
-- returns has the code that it was given.
pub record IsDerived (f : ℕ → Option PatternColour) : Type 0 where
  pub knows : (c : PatternColour) → f (colour_code c) ≡ some c
  pub sound : (n : ℕ) (c : PatternColour) → f n ≡ some c → colour_code c ≡ n

-- The patterns that a list of codes can stand for: four colours are always a pattern of 2 by 2.
abbrev pub IsCodable : Pattern → Type 0
IsCodable empty = ⊥
IsCodable rggb = Unit
IsCodable gbrg = Unit
IsCodable bggr = Unit
IsCodable grbg = Unit
IsCodable (non_rgb22 p) = length p ≢ 4

pub length-codes : (cs : List PatternColour) → length (codes cs) ≡ length cs
length-codes [] = refl
length-codes (c ∷ cs) = omega (arith, length-codes cs)

is_same_lem : (xs ys : List ℕ) → is_same xs ys ≡ true → xs ≡ ys
is_same_lem [] [] e = refl
is_same_lem [] (y ∷ ys) e = cc
is_same_lem (x ∷ xs) [] e = cc
is_same_lem (x ∷ xs) (y ∷ ys) e = heads (x == y) refl (is_same_lem xs ys) e
  where
    heads :
        (b : Bool)
        → (x == y) ≡ b
        → (is_same xs ys ≡ true → xs ≡ ys)
        → (b && is_same xs ys) ≡ true
        → x ∷ xs ≡ y ∷ ys
    heads true q ih h = rw ((==_iff x y).0 q, ih h) refl
    heads false q ih h = cc

module _ (f : ℕ → Option PatternColour) where
  take_colours-codes : IsDerived f → (cs : List PatternColour) → take_colours f (codes cs) ≡ cs
  unfolding take_colours
  take_colours-codes d [] = refl
  take_colours-codes d (c ∷ cs) = rw (d.knows c) (ap (λ t. c ∷ t) (take_colours-codes d cs))

  -- With the function that num_enum derives, every pattern but the empty one, and but one of four
  -- colours given as a list, is what `try_from` reads from the codes of its colours.
  pub try_from-codes :
      (p : Pattern) → IsDerived f → IsCodable p → try_from f (codes (pattern p)) ≡ ok p
  unfolding try_from try_bayer pattern
  try_from-codes empty d h = absurd h
  try_from-codes rggb d h = refl
  try_from-codes gbrg d h = refl
  try_from-codes bggr d h = refl
  try_from-codes grbg d h = refl
  try_from-codes (non_rgb22 cs) d h =
      rw
        (
          ne→== (length (codes cs)) 4 (λ e. h (sym (length-codes cs) ∙ e)),
          take_colours-codes d cs,
          eq→== (length cs) (length (codes cs)) (sym (length-codes cs)),
        )
        refl

  codes-take_colours :
      IsDerived f
      → (v : List ℕ) → length (take_colours f v) ≡ length v
      → codes (take_colours f v) ≡ v
  unfolding take_colours
  codes-take_colours d [] e = refl
  codes-take_colours d (n ∷ v) e = kept (f n) refl (codes-take_colours d v) e
    where
      kept :
          (o : Option PatternColour)
          → f n ≡ o
          → (length (take_colours f v) ≡ length v → codes (take_colours f v) ≡ v)
          → length (keep o (take_colours f v)) ≡ suc (length v)
          → codes (keep o (take_colours f v)) ≡ n ∷ v
      kept none q ih h = absurd (omega (arith, h))
      kept (some c) q ih h = rw (d.sound n c q, ih (omega (arith, h))) refl

  -- One comparison of a chain: either it answers, or the rest of the chain does.
  chosen :
      (v w : List ℕ) (p q : Pattern) (rest : Result Pattern)
      → codes (pattern q) ≡ w
      → (rest ≡ ok p → codes (pattern p) ≡ v)
      → (if is_same v w then ok q else rest) ≡ ok p
      → codes (pattern p) ≡ v
  chosen v w p q rest e later h = answer (is_same v w) refl h
    where
      answer :
          (b : Bool) → is_same v w ≡ b → (if b then ok q else rest) ≡ ok p → codes (pattern p) ≡ v
      answer true s h =
          let same : q ≡ p = cc in
          subst (λ r. codes (pattern r) ≡ v) same (e ∙ sym (is_same_lem v w s))
      answer false s h = later h

  codes-try_bayer : (v : List ℕ) (p : Pattern) → try_bayer v ≡ ok p → codes (pattern p) ≡ v
  unfolding try_bayer pattern
  codes-try_bayer v p e =
      chosen v _ p rggb _ refl
        (chosen v _ p gbrg _ refl (chosen v _ p grbg _ refl (chosen v _ p bggr _ refl (λ h. cc)))) e

  codes-colours :
      (v : List ℕ) (p : Pattern)
      → IsDerived f
      → (if length (take_colours f v) == length v
          then ok (non_rgb22 (take_colours f v))
          else err other)
        ≡ ok p
      → codes (pattern p) ≡ v
  unfolding pattern
  codes-colours v p d e = elim (Bool-cases (length (take_colours f v) == length v)) [
    | inl q ↦
        let h : (if true then ok (non_rgb22 (take_colours f v)) else err other) ≡ ok p =
          subst (λ b. (if b then ok (non_rgb22 (take_colours f v)) else err other) ≡ ok p) q e in
        let same : non_rgb22 (take_colours f v) ≡ p = cc in
        subst (λ r. codes (pattern r) ≡ v) same
          (codes-take_colours d v ((==_iff (length (take_colours f v)) (length v)).0 q))
    | inr q ↦
        let h : (if false then ok (non_rgb22 (take_colours f v)) else err other) ≡ ok p =
          subst (λ b. (if b then ok (non_rgb22 (take_colours f v)) else err other) ≡ ok p) q e in
        absurd cc
  ]

  -- With the function that num_enum derives, where `try_from` returns a pattern, the codes of its
  -- colours are the bytes that it was given.
  pub codes-try_from :
      (v : List ℕ) (p : Pattern) → IsDerived f → try_from f v ≡ ok p → codes (pattern p) ≡ v
  unfolding try_from pattern
  codes-try_from v p d e = by_length (length v == 4) e
    where
      by_length :
          (b : Bool)
          → (if b
              then try_bayer v
              else (if length (take_colours f v) == length v
                  then ok (non_rgb22 (take_colours f v))
                  else err other))
            ≡ ok p
          → codes (pattern p) ≡ v
      by_length true h = codes-try_bayer v p h
      by_length false h = codes-colours v p d h
