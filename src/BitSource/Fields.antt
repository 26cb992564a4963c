-- ===== src/BitSource/Fields.antt =====
-- Reading a field of a number's low bits.
use native.Mathlib.Nat.{pow-suc}
use libopenraw.Prelude.{
  ℕ, zero, suc, ◌+◌, ◌*◌, ◌/◌, ◌%◌, ◌^◌, ◌≤◌, ◌<◌, ◌≡◌, refl, sym, ap, ◌∙◌, Bool, true, false, not,
  List, [], ◌∷◌, ◌++◌, ◌==◌, length, length-append, length-take, take-append, subst, take, drop,
  take-length, drop-length, Result, ok, if◌then◌else◌, arith,
}
use libopenraw.BitSource.{BitReaderCrate, IsBitReader, value_from, value_of, low_bits}

value_from-append :
    (acc : ℕ) (xs ys : List Bool) → value_from acc (xs ++ ys) ≡ value_from (value_from acc xs) ys
value_from-append acc [] ys = refl
value_from-append acc (x ∷ xs) ys = value_from-append (acc * 2 + (if x then 1 else 0)) xs ys

pub length-low_bits : (n x : ℕ) → length (low_bits n x) ≡ n
length-low_bits zero x = refl
length-low_bits (suc n) x =
    length-append (low_bits n (x / 2)) (not (x % 2 == 0) ∷ [])
    ∙ omega (arith, length-low_bits n (x / 2))

low_bit : (x : ℕ) → (if not (x % 2 == 0) then 1 else 0) ≡ x % 2
low_bit x = ground arith

pub value_of-low_bits : (n x acc : ℕ) → x < 2 ^ n → value_from acc (low_bits n x) ≡ acc * 2 ^ n + x
value_of-low_bits zero x acc h = omega (arith, h)
value_of-low_bits (suc n) x acc h =
    value_from-append acc (low_bits n (x / 2)) (not (x % 2 == 0) ∷ [])
    ∙ omega (
      arith,
      value_of-low_bits n (x / 2) acc (omega (arith, h, pow-suc 2 n)),
      low_bit x,
      ap (λ (t : ℕ). acc * t) (pow-suc 2 n),
    )

pub value_from_lem :
    (acc : ℕ) (xs : List Bool) → value_from acc xs ≡ acc * 2 ^ length xs + value_of xs
value_from_lem acc [] = omega arith
value_from_lem acc (x ∷ xs) =
    let b : ℕ = if x then 1 else 0 in
    value_from_lem (acc * 2 + b) xs
    ∙ regroup acc b (2 ^ length xs) (value_of xs)
    ∙ ap (λ p. acc * p + (b * 2 ^ length xs + value_of xs)) (sym (pow-suc 2 (length xs)))
    ∙ ap (λ v. acc * 2 ^ suc (length xs) + v)
        (sym (value_from_lem b xs) ∙ ap (λ a. value_from a xs) (omega arith))
  where
    regroup : (a b p v : ℕ) → (a * 2 + b) * p + v ≡ a * (p * 2) + (b * p + v)
    regroup a b p v = grind arith

pub value_of-lt : (xs : List Bool) → value_of xs < 2 ^ length xs
value_of-lt [] = omega arith
value_of-lt (true ∷ xs) = omega (arith, value_from_lem 1 xs, value_of-lt xs, pow-suc 2 (length xs))
value_of-lt (false ∷ xs) = omega (arith, value_from_lem 0 xs, value_of-lt xs, pow-suc 2 (length xs))

-- A field of `l` bits at the front of `n`.
pub front_field :
    (l k c : ℕ) (more : List Bool)
    → c < 2 ^ l
    → k ≤ length more
    → (v : ℕ) × (v < 2 ^ k) × (value_of (take (l + k) (low_bits l c ++ more)) ≡ c * 2 ^ k + v)
front_field l k c more under enough =
    let behind = take k more in
    let some_bits : length behind ≡ k = length-take k more ∙ omega (arith, enough) in
    (
      value_of behind,
      subst (λ n. value_of behind < 2 ^ n) some_bits (value_of-lt behind),
      ap value_of (take-append l k (low_bits l c) more (sym (length-low_bits l c)))
          ∙ value_from-append 0 (low_bits l c) behind
          ∙ ap (λ x. value_from x behind) (value_of-low_bits l c 0 under ∙ omega arith)
          ∙ value_from_lem c behind
          ∙ ap (λ n. c * 2 ^ n + value_of behind) some_bits,
    )

-- What a reader returned, and the bits behind it.
pub record HasRead {A : Type 0} (c : BitReaderCrate) (laws : IsBitReader c) (value : A)
    (rest : List Bool) (m : Result (A × c.State)) : Type 0 where
  pub after : c.State
  pub returns : m ≡ ok (value, after)
  pub left : laws.bits after ≡ rest

pub read-HasRead :
    (c : BitReaderCrate) (laws : IsBitReader c) (w n x : ℕ) (s : c.State) (rest : List Bool)
    → n ≤ w
    → x < 2 ^ n
    → laws.bits s ≡ low_bits n x ++ rest
    → HasRead c laws x rest (c.read w n s)
read-HasRead c laws w n x s rest small fits e =
    let count : n ≤ length (laws.bits s) =
      omega (arith, ap length e, length-append (low_bits n x) rest, length-low_bits n x) in
    let (after, returns, left) = laws.reads w n s small count in
    let number : value_of (take n (laws.bits s)) ≡ x =
      ap value_of (ap (take n) e ∙ take-length (low_bits n x) rest n (sym (length-low_bits n x)))
      ∙ value_of-low_bits n x 0 fits
      ∙ omega arith in
    record {
      after = after;
      returns = returns ∙ ap (λ v. ok (v, after)) number;
      left = left ∙ ap (drop n) e ∙ drop-length (low_bits n x) rest n (sym (length-low_bits n x));
    }
