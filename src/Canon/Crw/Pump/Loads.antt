-- ===== src/Canon/Crw/Pump/Loads.antt =====
-- A field of the pump's 32 bits, and the bits of a byte that joins them.
use native.Mathlib.Nat.{
  one-le-pow, mul-lt-mul_of_pos_right, mul-pos, div-add-mod', mul-div-mul_right, add-mul-div_right,
  div-lt_iff_lt-mul, mod-lt,
}
use libopenraw.Prelude.{
  ℕ, ◌+◌, ◌-◌, ◌*◌, ◌/◌, ◌%◌, ◌^◌, ◌≤◌, ◌<◌, ◌≡◌, sym, ap, ◌∙◌, subst, ◌++◌, mod_unique, pow_add,
  shl, shr, arith,
}
use libopenraw.BitSource.{low_bits}
use libopenraw.Decompress.WordReader.Stream.{low_bits-add, low_bits-mod}

mod_mul : (b p q : ℕ) → 0 < p → 0 < q → b * q % (p * q) ≡ b % p * q
mod_mul b p q h k =
    let less : b % p * q < p * q = mul-lt-mul_of_pos_right (mod-lt b h) k in
    let split : b * q ≡ b / p * (p * q) + b % p * q =
      ap (λ t. t * q) (sym (div-add-mod' b p)) ∙ distribute (b / p) p (b % p) q in
    ap (λ t. t % (p * q)) split ∙ mod_unique (b / p) (p * q) (b % p * q) less
  where
    distribute : (a p r q : ℕ) → (a * p + r) * q ≡ a * (p * q) + r * q
    distribute a p r q = grind arith

mod_div : (b p q : ℕ) → 0 < p → 0 < q → b % (p * q) / q ≡ b / q % p
mod_div b p q h k =
    let r = b % (p * q) in
    let a = b / (p * q) in
    let pq : 0 < p * q = mul-pos h k in
    let less : r / q < p = (div-lt_iff_lt-mul k).1 (mod-lt b pq) in
    let split : b ≡ r + a * p * q = grind arith in
    let quotient : b / q ≡ a * p + r / q =
      ap (λ t. t / q) split ∙ add-mul-div_right r (a * p) k ∙ omega arith in
    sym (ap (λ t. t % p) quotient ∙ mod_unique a p (r / q) less)

-- The top `n` of `v` bits, as the pump shifts them out of 32.
pub top_lem :
    (b n v : ℕ) → n ≤ v → v ≤ 32 → shr (shl 32 b (32 - v)) (32 - n) ≡ b / 2 ^ (v - n) % 2 ^ n
top_lem b n v few cap =
    let j = 32 - v in
    let k = v - n in
    let all : 2 ^ 32 ≡ 2 ^ v * 2 ^ j = powers 32 v j (omega (arith, cap)) in
    let shift : 2 ^ (32 - n) ≡ 2 ^ k * 2 ^ j = powers (32 - n) k j (omega (arith, cap, few)) in
    let held : 2 ^ v ≡ 2 ^ n * 2 ^ k = powers v n k (omega (arith, few)) in
    ap (λ t. b * 2 ^ j % t / 2 ^ (32 - n)) all
    ∙ ap (λ t. t / 2 ^ (32 - n)) (mod_mul b (2 ^ v) (2 ^ j) (power v) (power j))
    ∙ ap (λ t. b % 2 ^ v * 2 ^ j / t) shift
    ∙ mul-div-mul_right (b % 2 ^ v) (2 ^ k) (power j)
    ∙ ap (λ t. b % t / 2 ^ k) held
    ∙ mod_div b (2 ^ n) (2 ^ k) (power n) (power k)
  where
    power : (i : ℕ) → 0 < 2 ^ i
    power i = one-le-pow i 2 (omega arith)

    powers : (t a b : ℕ) → t ≡ a + b → 2 ^ t ≡ 2 ^ a * 2 ^ b
    powers t a b e = ap (λ i. 2 ^ i) e ∙ pow_add a b

-- A byte joins the bits of the pump.
pub low_bits-joined_byte :
    (v b c : ℕ)
    → v ≤ 24
    → c < 256
    → low_bits (v + 8) ((shl 32 b 8 + c) % 2 ^ 32) ≡ low_bits v b ++ low_bits 8 c
low_bits-joined_byte v b c few byte =
    let whole : ℕ = (shl 32 b 8 + c) % 2 ^ 32 in
    let upper : whole / 2 ^ 8 ≡ b % 2 ^ 24 = omega (arith, byte) in
    let lower : whole % 2 ^ 8 ≡ c = omega (arith, byte) in
    let size : v + (24 - v) ≡ 24 = omega (arith, few) in
    let front : low_bits v (b % 2 ^ 24) ≡ low_bits v b =
      subst (λ k. low_bits v (b % 2 ^ k) ≡ low_bits v b) size (low_bits-mod v (24 - v) b) in
    let back : low_bits 8 whole ≡ low_bits 8 c =
      sym (low_bits-mod 8 0 whole) ∙ ap (low_bits 8) lower in
    low_bits-add v 8 whole
    ∙ ap (λ q. low_bits v q ++ low_bits 8 whole) upper
    ∙ ap (λ t. t ++ low_bits 8 whole) front
    ∙ ap (λ t. low_bits v b ++ t) back
