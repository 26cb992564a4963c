-- ===== src/Canon/Crw/Sums/Deltas.antt =====
-- The samples of a block are read back from their differences.
use libopenraw.Prelude.{
  ℕ, suc, ◌+◌, ◌%◌, ◌^◌, ◌≤◌, ◌<◌, ◌≡◌, refl, ap, inl, inr, ◌⊎◌, Bool, true, false, Bool-cases,
  List, [], ◌∷◌, ◌==◌, length, All, if◌then◌else◌, ok, index, update, update-append, lt→ltb, ℤ, pos,
  negsuc, ◌+ℤ◌, ◌-ℤ◌, as_u16, arith,
}
use libopenraw.Canon.Crw.Sums.{as_i32, crw_u32, add_carry, row_start_base, add_up}

-- What stands at the left of a row.
abbrev pub row_base : ℕ → ℕ → ℕ → ℕ
row_base width column v = if column % width == 0 then 512 else v

-- The difference of every sample to the one two places to the left, which has the same colour: `p`
-- is that sample, and `q` the one between.
abbrev pub deltas : ℕ → ℕ → ℕ → ℕ → List ℕ → List ℤ
deltas width column p q [] = []
deltas width column p q (x ∷ xs) =
    (pos x -ℤ pos (row_base width column p))
    ∷ deltas width (column + 1) (row_base width column q) x xs

-- The two samples that stand before the next one.
abbrev pub last_two : ℕ → ℕ → ℕ → ℕ → List ℕ → ℕ × ℕ
last_two width column p q [] = (p, q)
last_two width column p q (x ∷ xs) = last_two width (column + 1) (row_base width column q) x xs

-- The two sums of the code: the one at `i % 2` is next.
abbrev pub bases : ℕ → ℕ → ℕ → List ℤ
bases i p q = if i % 2 == 0 then pos p ∷ pos q ∷ [] else pos q ∷ pos p ∷ []

pub length-deltas :
    (width column p q : ℕ) (xs : List ℕ) → length (deltas width column p q xs) ≡ length xs
length-deltas width column p q [] = refl
length-deltas width column p q (x ∷ xs) =
    ap suc (length-deltas width (column + 1) (row_base width column q) x xs)

sub_add : (x y : ℤ) → (x -ℤ y) +ℤ y ≡ x
unfolding ◌+ℤ◌ ◌-ℤ◌
sub_add (pos x) (pos y) = ground arith
sub_add (pos x) (negsuc y) = ground arith
sub_add (negsuc x) (pos y) = ground arith
sub_add (negsuc x) (negsuc y) = ground arith

add_sub : (p x : ℕ) → pos p +ℤ (pos x -ℤ pos p) ≡ pos x
unfolding ◌+ℤ◌ ◌-ℤ◌
add_sub p x = ground arith

as_i32_pos : (x : ℕ) → x < 2 ^ 16 → as_i32 (pos x) ≡ ok (pos x)
unfolding as_i32
as_i32_pos x h = rw (lt→ltb x (2 ^ 31) (omega (arith, h))) refl

as_u16_pos : (x : ℕ) → x < 2 ^ 16 → as_u16 (pos x) ≡ x
unfolding as_u16
as_u16_pos x h = omega (arith, h)

as_i32_delta : (x p : ℕ) → x < 2 ^ 16 → p < 2 ^ 16 → as_i32 (pos x -ℤ pos p) ≡ ok (pos x -ℤ pos p)
unfolding as_i32 ◌-ℤ◌
as_i32_delta x p h k = ground (arith)

row_start_base-bases :
    (width column i p q : ℕ)
    → row_start_base width column (bases i p q)
      ≡ bases i (row_base width column p) (row_base width column q)
row_start_base-bases width column i p q = elim (Bool-cases (column % width == 0)) [
  | inl e ↦ rw e (same (i % 2 == 0))
  | inr e ↦ rw e refl
]
  where
    same :
        (b : Bool)
        → pos 512 ∷ pos 512 ∷ [] ≡ (if b then pos 512 ∷ pos 512 ∷ [] else pos 512 ∷ pos 512 ∷ [])
    same true = refl
    same false = refl

parity : (i : ℕ) → ((i % 2 ≡ 0) × ((i + 1) % 2 ≡ 1)) ⊎ ((i % 2 ≡ 1) × ((i + 1) % 2 ≡ 0))
parity i = elim (Bool-cases (i % 2 == 0)) [
  | inl e ↦ inl (ground (arith, e), ground (arith, e))
  | inr e ↦ inr (ground (arith, e), ground (arith, e))
]

index-bases : (i p q : ℕ) → index (bases i p q) (i % 2) ≡ ok (pos p)
unfolding index
index-bases i p q = elim (parity i) [ inl e ↦ rw (e.0) refl | inr e ↦ rw (e.0) refl ]

update-bases : (i p q x : ℕ) → update (bases i p q) (i % 2) (pos x) ≡ ok (bases (i + 1) q x)
unfolding update
update-bases i p q x = elim (parity i) [ inl e ↦ rw (e.0, e.1) refl | inr e ↦ rw (e.0, e.1) refl ]

-- The loop gives the samples whose differences it gets, and keeps the last two.
pub add_up-deltas :
    (width i column p q : ℕ) (xs : List ℕ)
    → All (λ x. x < 2 ^ 16) xs
    → column + length xs < 2 ^ 32
    → add_up width i (deltas width column p q xs) column (bases i p q)
      ≡ ok (
        xs,
        bases (i + length xs) (last_two width column p q xs).0 (last_two width column p q xs).1,
        column + length xs,
      )
unfolding add_up crw_u32
add_up-deltas width i column p q [] small room =
    let here : i + 0 ≡ i = omega arith in
    let there : column + 0 ≡ column = omega arith in rw (here, there) refl
add_up-deltas width i column p q (x ∷ xs) small room =
    let p' = row_base width column p in
    let q' = row_base width column q in
    let here : i + 1 + length xs ≡ i + suc (length xs) = omega arith in
    let there : column + 1 + length xs ≡ column + suc (length xs) = omega arith in
    rw
      (
        row_start_base-bases width column i p q,
        lt→ltb (column + 1) (2 ^ 32) (omega (arith, room)),
        index-bases i p' q',
        add_sub p' x,
        as_i32_pos x small.0,
        update-bases i p' q' x,
        add_up-deltas width (i + 1) (column + 1) q' x xs small.1 (omega (arith, room)),
        here,
        there,
        as_u16_pos x small.0,
      )
      refl

-- What a block holds of its first difference: what it adds to that of the block before.
abbrev pub less_carry : ℤ → List ℤ → List ℤ
less_carry carry [] = []
less_carry carry (x ∷ xs) = (x -ℤ carry) ∷ xs

-- `carry` behind a block of samples.
abbrev pub carry_of : ℕ → ℕ → ℕ → List ℕ → ℤ
carry_of width column p [] = pos 0
carry_of width column p (x ∷ xs) = pos x -ℤ pos (row_base width column p)

row_base-small : (width column p : ℕ) → p < 2 ^ 16 → row_base width column p < 2 ^ 16
row_base-small width column p h = elim (Bool-cases (column % width == 0)) [
  | inl e ↦ rw e (omega arith)
  | inr e ↦ rw e h
]

pub add_carry-deltas :
    (width column p q : ℕ) (xs : List ℕ) (carry : ℤ)
    → 1 ≤ length xs
    → All (λ x. x < 2 ^ 16) xs
    → p < 2 ^ 16
    → add_carry (less_carry carry (deltas width column p q xs)) carry
      ≡ ok (deltas width column p q xs, carry_of width column p xs)
unfolding add_carry index
add_carry-deltas width column p q [] carry some_samples small low =
    absurd (omega (arith, some_samples))
add_carry-deltas width column p q (x ∷ xs) carry some_samples small low =
    let p' = row_base width column p in
    rw
      (
        sub_add (pos x -ℤ pos p') carry,
        as_i32_delta x p' small.0 (row_base-small width column p low),
        update-append [] (deltas width (column + 1) (row_base width column q) x xs)
            (pos x -ℤ pos p' -ℤ carry) (pos x -ℤ pos p') 0 refl,
      )
      refl

pub last_two-small :
    (width column p q : ℕ) (xs : List ℕ)
    → All (λ x. x < 2 ^ 16) xs
    → p < 2 ^ 16
    → q < 2 ^ 16
    → ((last_two width column p q xs).0 < 2 ^ 16) × ((last_two width column p q xs).1 < 2 ^ 16)
last_two-small width column p q [] small low low' = (low, low')
last_two-small width column p q (x ∷ xs) small low low' =
    last_two-small width (column + 1) (row_base width column q) x xs small.1
      (row_base-small width column q low') small.0
