-- ===== src/Canon/Crw/Tokens/Coded.antt =====
-- The tokens that code a block, and what the code does with each.
use native.Mathlib.Nat.{pow-suc}
use libopenraw.Prelude.{
  ℕ, zero, suc, ◌+◌, ◌-◌, ◌*◌, ◌^◌, ◌≤◌, ◌<◌, ◌≡◌, ◌⊎◌, refl, Bool, false, some, List, [], ◌∷◌,
  ◌++◌, ◌==◌, ◌&&◌, not, ne→==, length, replicate, Result, ok, lt→ltb, ge→ltb, update-append,
  bit_and, bit_and_mask, shr, ℤ, pos, negsuc, ◌-ℤ◌, arith,
}
use libopenraw.BitSource.{low_bits}
use libopenraw.Decompress.Ljpeg.Signs.{sent_bits, IsOfSize}
use libopenraw.Nikon.Cfa.Diffs.{top_bit}
use libopenraw.Canon.Crw.Pump.{Pumped, get_bits}
use libopenraw.Canon.Crw.Tokens.{
  Decompress, read_leaf, crw_diff, store_diff, read_diff, with_leaf, decoder_at, read_tokens,
}
use libopenraw.Canon.Crw.Tokens.Trees.{leaf_at}

-- The difference that `len` bits send is read back.
pub crw_diff-sent_bits :
    (d : ℤ) (len : ℕ) → 1 ≤ len → IsOfSize d len → crw_diff len (sent_bits d len) ≡ d
unfolding crw_diff
crw_diff-sent_bits d zero some_bits size = absurd (omega (arith, some_bits))
crw_diff-sent_bits (pos m) (suc n) some_bits size =
    let less : suc n - 1 ≡ n = omega arith in
    let low : 2 ^ n ≤ m = rw less at size.0 in
    rw (less, top_bit n m size.1, ge→ltb m (2 ^ n) low) refl
crw_diff-sent_bits (negsuc m) (suc n) some_bits size =
    let less : suc n - 1 ≡ n = omega arith in
    let low : 2 ^ n ≤ m + 1 = rw less at size.0 in
    let x : ℕ = 2 ^ suc n - 2 - m in
    let under : x < 2 ^ n = omega (arith, low, size.1, pow-suc 2 n) in
    rw (less, top_bit n x (omega (arith, under, pow-suc 2 n)), lt→ltb x (2 ^ n) under)
      (back x (2 ^ suc n) m refl (omega (arith, size.1)))
  where
    back : (x p m : ℕ) → x ≡ p - 2 - m → m + 2 ≤ p → pos x -ℤ pos (p - 1) ≡ negsuc m
    back x p m e h = unfold ◌-ℤ◌ in ground arith

-- The bits that code the differences of a block from place `i` on, in the words of the tokens: a
-- leaf is the gap before a difference, times 16, and the size of the difference.
pub data Codes (d : Decompress) : ℕ → List ℤ → List Bool → Type 0 where
  -- The block is full.
  filled : {i : ℕ} → Codes d i [] []
  -- A leaf 0 behind the first place ends a block whose other differences are 0.
  ended :
      {i : ℕ} {xs : List ℤ} {bits : List Bool} (n : ℕ)
      → 1 ≤ i
      → leaf_at (decoder_at d i) 0 bits ≡ some 0
      → xs ≡ replicate (suc n) (pos 0)
      → Codes d i xs bits
  -- Zeros and a difference other than 0.
  sent :
      {i : ℕ} {xs all : List ℤ} {bits whole : List Bool} (gap len : ℕ) (x : ℤ) (code : List Bool)
      → 1 ≤ len
      → len ≤ 15
      → IsOfSize x len
      → gap * 16 + len < 255
      → leaf_at (decoder_at d i) 0 code ≡ some (gap * 16 + len)
      → Codes d (i + gap + 1) xs bits
      → all ≡ replicate gap (pos 0) ++ (x ∷ xs)
      → whole ≡ code ++ (low_bits len (sent_bits x len) ++ bits)
      → Codes d i all whole
  -- Zeros alone: 0xf0 for 16 of them, and at the first place 0 for one.
  run :
      {i : ℕ} {xs all : List ℤ} {bits whole : List Bool} (gap : ℕ) (code : List Bool)
      → gap ≤ 15
      → (i ≡ 0) ⊎ (1 ≤ gap)
      → leaf_at (decoder_at d i) 0 code ≡ some (gap * 16)
      → Codes d (i + gap + 1) xs bits
      → all ≡ replicate (gap + 1) (pos 0) ++ xs
      → whole ≡ code ++ bits
      → Codes d i all whole
  -- The leaf 0xff passes a place.
  passed :
      {i : ℕ} {xs all : List ℤ} {bits whole : List Bool} (code : List Bool)
      → leaf_at (decoder_at d i) 0 code ≡ some 255
      → Codes d (i + 1) xs bits
      → all ≡ pos 0 ∷ xs
      → whole ≡ code ++ bits
      → Codes d i all whole

module _ (d : Decompress) where
  -- A round, behind a leaf that was read.
  pub round_lem :
      (left i leaf : ℕ) (buf : List ℤ) (p after : Pumped)
      → i < 64
      → read_leaf (decoder_at d i) p ≡ ok (leaf, after)
      → read_tokens d (suc left) i buf p ≡ with_leaf leaf i buf after (read_tokens d left)
  unfolding read_tokens
  round_lem left i leaf buf p after h e = rw (lt→ltb i 64 h, read_tokens, e) refl

  pub done_lem :
      (left i : ℕ) (buf : List ℤ) (p : Pumped) → 64 ≤ i → read_tokens d left i buf p ≡ ok (buf, p)
  unfolding read_tokens
  done_lem zero i buf p h = refl
  done_lem (suc left) i buf p h = rw (ge→ltb i 64 h, read_tokens) refl

pub ended_lem :
    (i : ℕ) (buf : List ℤ) (p : Pumped) (next : ℕ → List ℤ → Pumped → Result (List ℤ × Pumped))
    → 1 ≤ i
    → with_leaf 0 i buf p next ≡ ok (buf, p)
unfolding with_leaf
ended_lem i buf p next h = rw (ne→== i 0 (λ e. absurd (omega (arith, e, h)))) refl

pub passed_lem :
    (i : ℕ) (buf : List ℤ) (p : Pumped) (next : ℕ → List ℤ → Pumped → Result (List ℤ × Pumped))
    → with_leaf 255 i buf p next ≡ next (i + 1) buf p
unfolding with_leaf read_diff
passed_lem i buf p next = refl

pub run_lem :
    (gap i : ℕ) (buf : List ℤ) (p : Pumped) (next : ℕ → List ℤ → Pumped → Result (List ℤ × Pumped))
    → gap ≤ 15
    → (i ≡ 0) ⊎ (1 ≤ gap)
    → with_leaf (gap * 16) i buf p next ≡ next (i + gap + 1) buf p
unfolding with_leaf read_diff
run_lem gap i buf p next few some_gap =
    let goes_on : ((gap * 16 == 0) && not (i == 0)) ≡ false = ground (arith, some_gap) in
    let no_ff : (gap * 16 == 255) ≡ false = ne→== (gap * 16) 255 (λ e. absurd (omega (arith, e))) in
    let low : bit_and (gap * 16) 15 ≡ 0 = omega (arith, bit_and_mask 4 (gap * 16)) in
    let high : shr (gap * 16) 4 ≡ gap = omega arith in rw (goes_on, no_ff, low, high) refl

pub sent_lem :
    (gap len i v : ℕ) (front back : List ℤ) (p after : Pumped)
    (next : ℕ → List ℤ → Pumped → Result (List ℤ × Pumped))
    → 1 ≤ len
    → len ≤ 15
    → gap * 16 + len < 255
    → i + gap ≡ length front
    → i + gap < 64
    → get_bits (pos len) p.0 p.1 ≡ ok (v, after)
    → with_leaf (gap * 16 + len) i (front ++ pos 0 ∷ back) p next
      ≡ next (i + gap + 1) (front ++ crw_diff len v ∷ back) after
unfolding with_leaf read_diff store_diff
sent_lem gap len i v front back p after next some_bits few byte here room e =
    let leaf : ℕ = gap * 16 + len in
    let no_zero : (leaf == 0) ≡ false = ne→== leaf 0 (λ q. absurd (omega (arith, q, some_bits))) in
    let no_ff : (leaf == 255) ≡ false = ne→== leaf 255 (λ q. absurd (omega (arith, q, byte))) in
    let low : bit_and leaf 15 ≡ len = omega (arith, bit_and_mask 4 leaf, few) in
    let high : shr leaf 4 ≡ gap = omega (arith, few) in
    let some_len : (len == 0) ≡ false = ne→== len 0 (λ q. absurd (omega (arith, q, some_bits))) in
    rw
      (
        no_zero,
        no_ff,
        low,
        high,
        some_len,
        e,
        lt→ltb (i + gap) 64 room,
        update-append front back (pos 0) (crw_diff len v) (i + gap) here,
      )
      refl
