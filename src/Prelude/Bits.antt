-- ===== src/Prelude/Bits.antt =====
-- Masks and joined bit fields as arithmetic. The library gives `&` and `|` by their binary digits.
use Prim.Native.Nat.{
  ℕ, zero, suc, ◌+◌, ◌-◌, ◌*◌, ◌/◌, ◌%◌, ◌^◌, ◌≤◌, ◌<◌, min, max, bit_and, bit_or, digits,
  bit_and-bitwise, bit_or-bitwise,
}
use mathlib.Core.Path.{◌≡◌, refl, ap, ◌∙◌}
use native.Mathlib.Nat.{pow-suc, one-le-pow}
use native.Mathlib.Omega.{arith}

-- Any fuel that reaches the number gives the same digits.
module _ (tail : ℕ → ℕ) (op : ℕ → ℕ → ℕ) where
  enough_fuel : (m n a b : ℕ) → a ≤ m → a ≤ n → digits tail op m a b ≡ digits tail op n a b
  enough_fuel zero zero zero b h k = refl
  enough_fuel zero (suc n) zero b h k = refl
  enough_fuel (suc m) zero zero b h k = refl
  enough_fuel (suc m) (suc n) zero b h k = refl
  enough_fuel zero n (suc a) b h k = absurd (omega arith)
  enough_fuel (suc m) zero (suc a) b h k = absurd (omega arith)
  enough_fuel (suc m) (suc n) (suc a) b h k =
      rw (enough_fuel m n (suc a / 2) (b / 2) (omega arith) (omega arith))

-- The lowest digit of `a & b` and of `a | b`, and the rest.
pub bit_and_halves : (a b : ℕ) → bit_and a b ≡ bit_and (a / 2) (b / 2) * 2 + min (a % 2) (b % 2)
bit_and_halves zero b = omega (arith, bit_and-bitwise 0 b, bit_and-bitwise 0 (b / 2))
bit_and_halves (suc a) b = omega (
  arith,
  bit_and-bitwise (suc a) b,
  bit_and-bitwise (suc a / 2) (b / 2),
  enough_fuel (λ _. zero) min a (suc a / 2) (suc a / 2) (b / 2) (omega arith) (omega arith),
)

pub bit_or_halves : (a b : ℕ) → bit_or a b ≡ bit_or (a / 2) (b / 2) * 2 + max (a % 2) (b % 2)
bit_or_halves zero b = omega (arith, bit_or-bitwise 0 b, bit_or-bitwise 0 (b / 2))
bit_or_halves (suc a) b = omega (
  arith,
  bit_or-bitwise (suc a) b,
  bit_or-bitwise (suc a / 2) (b / 2),
  enough_fuel (λ y. y) max a (suc a / 2) (suc a / 2) (b / 2) (omega arith) (omega arith),
)

and_none : (n a : ℕ) → a ≤ n → bit_and a 0 ≡ 0
and_none n zero h = bit_and-bitwise 0 0
and_none zero (suc a) h = absurd (omega arith)
and_none (suc n) (suc a) h =
    omega (arith, bit_and_halves (suc a) 0, and_none n (suc a / 2) (omega arith))

or_none : (n a : ℕ) → a ≤ n → bit_or a 0 ≡ a
or_none n zero h = bit_or-bitwise 0 0
or_none zero (suc a) h = absurd (omega arith)
or_none (suc n) (suc a) h =
    omega (arith, bit_or_halves (suc a) 0, or_none n (suc a / 2) (omega arith))

pub pow_add : (a b : ℕ) → 2 ^ (a + b) ≡ 2 ^ a * 2 ^ b
pow_add a zero = let none_more : a + 0 ≡ a = omega arith in rw none_more (omega arith)
pow_add a (suc b) =
    let up : a + suc b ≡ suc (a + b) = omega arith in
    rw up (pow-suc 2 (a + b) ∙ grind (arith, pow_add a b, pow-suc 2 b))

pub mod_unique : (q m r : ℕ) → r < m → (q * m + r) % m ≡ r
mod_unique q m r h = grind arith

pub div_unique : (q m r : ℕ) → r < m → (q * m + r) / m ≡ q
div_unique q m r h = grind arith

-- `x << k` on a `w`-bit word, `x >> k`, and the mask of `k` low bits.
abbrev pub shl : ℕ → ℕ → ℕ → ℕ
shl w x k = x * 2 ^ k % 2 ^ w

abbrev pub shr : ℕ → ℕ → ℕ
shr x k = x / 2 ^ k

abbrev pub low_mask : ℕ → ℕ
low_mask k = 2 ^ k - 1

pub mod-two_mul : (a p : ℕ) → 0 < p → a % (2 * p) ≡ a / 2 % p * 2 + a % 2
mod-two_mul a p h = grind (arith, mod_unique (a / 2 / p) (2 * p) (a / 2 % p * 2 + a % 2))

pub bit_and_mask : (k a : ℕ) → bit_and a (low_mask k) ≡ a % 2 ^ k
bit_and_mask zero a = omega (arith, and_none a a (omega arith))
bit_and_mask (suc k) a = ground (
  arith,
  pow-suc 2 k,
  one-le-pow k 2,
  bit_and_halves a (low_mask (suc k)),
  bit_and_mask k (a / 2),
  mod-two_mul a (2 ^ k),
)

pub bit_or_fields : (k q r : ℕ) → r < 2 ^ k → bit_or (q * 2 ^ k) r ≡ q * 2 ^ k + r
bit_or_fields zero q r h = ground (arith, or_none q q (omega arith))
bit_or_fields (suc k) q r h = ground (
  arith,
  bit_or_halves (q * 2 ^ suc k) r,
  pow-suc 2 k,
  ap (λ (t : ℕ). q * t) (pow-suc 2 k),
  bit_or_fields k q (r / 2) (omega (arith, pow-suc 2 k)),
)

pub bit_or-lt : (k a b : ℕ) → a < 2 ^ k → b < 2 ^ k → bit_or a b < 2 ^ k
bit_or-lt zero a b h g = ground (arith, or_none 0 0 (omega arith))
bit_or-lt (suc k) a b h g = ground (
  arith,
  pow-suc 2 k,
  bit_or_halves a b,
  bit_or-lt k (a / 2) (b / 2) (omega (arith, pow-suc 2 k)) (omega (arith, pow-suc 2 k)),
)
