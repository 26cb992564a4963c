-- ===== src/Decompress/WordReader/Stream.antt =====
-- The bits of the words come in order.
use native.Mathlib.Nat.{pow-suc, one-le-pow, div-div-eq-div-mul}
use libopenraw.Prelude.{
  ℕ, zero, suc, ◌+◌, ◌*◌, ◌/◌, ◌%◌, ◌^◌, ◌≤◌, ◌<◌, ◌≡◌, refl, sym, ap, ◌∙◌, Bool, not, List, [],
  ◌∷◌, ◌++◌, ◌==◌, append_assoc, append-nil, take, drop, take-length, drop-length, mod-two_mul,
  arith,
}
use libopenraw.BitSource.{low_bits, value_of}
use libopenraw.BitSource.Fields.{length-low_bits, value_of-low_bits}

-- The `n + m` low bits of a number are `n` of its quotient, and the `m` low bits.
pub low_bits-add : (n m x : ℕ) → low_bits (n + m) x ≡ low_bits n (x / 2 ^ m) ++ low_bits m x
low_bits-add n zero x =
    let none_more : n + 0 ≡ n = omega arith in
    let whole : x / 2 ^ 0 ≡ x = omega arith in
    rw (none_more, whole) (sym (append-nil (low_bits n x)))
low_bits-add n (suc m) x =
    let up : n + suc m ≡ suc (n + m) = omega arith in
    let halves : x / 2 / 2 ^ m ≡ x / 2 ^ suc m =
      div-div-eq-div-mul x 2 (2 ^ m) ∙ ap (λ p. x / p) (omega (arith, pow-suc 2 m)) in
    ap (λ k. low_bits k x) up
    ∙ ap (λ t. t ++ (not (x % 2 == 0) ∷ [])) (low_bits-add n m (x / 2))
    ∙ append_assoc (low_bits n (x / 2 / 2 ^ m)) (low_bits m (x / 2)) (not (x % 2 == 0) ∷ [])
    ∙ ap (λ q. low_bits n q ++ low_bits (suc m) x) halves

-- Only the low bits of a number count.
pub low_bits-mod : (n k x : ℕ) → low_bits n (x % 2 ^ (n + k)) ≡ low_bits n x
low_bits-mod zero k x = refl
low_bits-mod (suc n) k x =
    let power : 2 ^ (suc n + k) ≡ 2 * 2 ^ (n + k) =
      ap (λ m. 2 ^ m) (omega arith) ∙ pow-suc 2 (n + k) ∙ omega arith in
    let split = mod-two_mul x (2 ^ (n + k)) (one-le-pow (n + k) 2 (omega arith)) in
    let upper : x % 2 ^ (suc n + k) / 2 ≡ x / 2 % 2 ^ (n + k) =
      ap (λ p. x % p / 2) power ∙ omega (arith, split) in
    let lowest : x % 2 ^ (suc n + k) % 2 ≡ x % 2 =
      ap (λ p. x % p % 2) power ∙ omega (arith, split) in
    rw (upper, lowest) (ap (λ t. t ++ (not (x % 2 == 0) ∷ [])) (low_bits-mod n k (x / 2)))

pub value_of-low_bits_mod : (n x : ℕ) → value_of (low_bits n x) ≡ x % 2 ^ n
value_of-low_bits_mod n x =
    let whole : n + 0 ≡ n = omega arith in
    ap value_of (sym (rw whole at (low_bits-mod n 0 x)))
    ∙ value_of-low_bits n (x % 2 ^ n) 0 (mod_lt x (2 ^ n) (one-le-pow n 2 (omega arith)))
    ∙ omega arith
  where
    mod_lt : (a p : ℕ) → 1 ≤ p → a % p < p
    mod_lt a p h = grind arith

-- The first `n` bits of a field, and those behind them.
pub take-low_bits :
    (n k x : ℕ) (rest : List Bool) → take n (low_bits (n + k) x ++ rest) ≡ low_bits n (x / 2 ^ k)
take-low_bits n k x rest =
    ap (λ t. take n (t ++ rest)) (low_bits-add n k x)
    ∙ ap (take n) (append_assoc (low_bits n (x / 2 ^ k)) (low_bits k x) rest)
    ∙ take-length (low_bits n (x / 2 ^ k)) (low_bits k x ++ rest) n
        (sym (length-low_bits n (x / 2 ^ k)))

pub drop-low_bits :
    (n k x : ℕ) (rest : List Bool) → drop n (low_bits (n + k) x ++ rest) ≡ low_bits k x ++ rest
drop-low_bits n k x rest =
    ap (λ t. drop n (t ++ rest)) (low_bits-add n k x)
    ∙ ap (drop n) (append_assoc (low_bits n (x / 2 ^ k)) (low_bits k x) rest)
    ∙ drop-length (low_bits n (x / 2 ^ k)) (low_bits k x ++ rest) n
        (sym (length-low_bits n (x / 2 ^ k)))
