-- ===== src/Panasonic/Raw1/Fields.antt =====
-- The fields that the pixels of a chunk are read from, and the values that they give.
use libopenraw.Prelude.{
  ℕ, zero, suc, ◌+◌, ◌-◌, ◌*◌, ◌/◌, ◌%◌, ◌^◌, ◌≤◌, ◌<◌, ◌≡◌, ◌⊎◌, inl, inr, refl, Bool, true, false,
  not, ◌&&◌, ◌||◌, ◌==◌, ltb, List, [], ◌∷◌, Bool-cases, All, length, set, Result, ok, bit_and_mask,
  bit_or_fields, bit_or-lt, shl, shr, arith, low_mask, bit_and, bit_or,
}
use native.Mathlib.Nat.{mod-lt}
use libopenraw.Panasonic.Raw1.{
  BitsCursor, Colors, Chunk, next, add16, decode_next_px, is_nonzero, set_nonzero, load_initial_px,
}
use libopenraw.Panasonic.Raw1.Bits.{IsByte, IsWidth, le_value, get_lem}

-- The extra bits of the first nonzero pixel of a colour.
abbrev pub extra : Bool → ℕ
extra true = 4
extra false = 0

-- `px` pixels and the shifts of some groups (`shifts` bits) have been read.
pub record IsFine (px shifts : ℕ) (c : Chunk) : Type 0 where
  pub sixteen : length c.cursor.bits ≡ 16
  pub bytes : All IsByte c.cursor.bits
  pub used : c.cursor.pos ≤ 8 * px + shifts + extra c.color_nonzero.even + extra c.color_nonzero.odd
  pub fourteen : length c.out ≡ 14
  pub bounded : All (λ v. v ≤ 4095 + 508 * px) c.out

-- Reading a field moves the cursor and gives a number of that many bits.
pub next_lem :
    (cursor : BitsCursor) (count : ℕ)
    → length cursor.bits ≡ 16
    → All IsByte cursor.bits
    → IsWidth count
    → cursor.pos + count ≤ 128
    → (v : ℕ) × (next cursor count ≡ ok (v, record cursor { pos = cursor.pos + count }))
      × (v < 2 ^ count)
unfolding next
next_lem cursor count len bytes w fits = (
  le_value cursor.bits / 2 ^ (128 - cursor.pos - count) % 2 ^ count,
  rw (get_lem cursor.bits cursor.pos count len bytes w fits) refl,
  mod-lt _ (positive count w),
)
  where
    positive : (n : ℕ) → IsWidth n → 0 < 2 ^ n
    positive n (inl e) = rw e (omega arith)
    positive n (inr (inl e)) = rw e (omega arith)
    positive n (inr (inr e)) = rw e (omega arith)

pub All-weaken : (a b : ℕ) (xs : List ℕ) → a ≤ b → All (λ v. v ≤ a) xs → All (λ v. v ≤ b) xs
All-weaken a b [] h k = tt
All-weaken a b (x ∷ xs) h k = (omega (arith, k.0), All-weaken a b xs h k.1)

pub All-set :
    (b i v : ℕ) (xs : List ℕ) → v ≤ b → All (λ v. v ≤ b) xs → All (λ v. v ≤ b) (set xs i v)
All-set b i v [] h k = tt
All-set b zero v (x ∷ xs) h k = (h, k.1)
All-set b (suc i) v (x ∷ xs) h k = (k.0, All-set b i v xs h k.1)

-- The shifts that a group can have.
abbrev pub IsShift : ℕ → Type 0
IsShift s = (s ≡ 0) ⊎ ((s ≡ 1) ⊎ ((s ≡ 2) ⊎ (s ≡ 4)))

pub shift_lem : (v : ℕ) → v < 4 → IsShift (shr 4 (3 - v))
shift_lem zero h = inl refl
shift_lem (suc zero) h = inr (inl refl)
shift_lem (suc (suc zero)) h = inr (inr (inl refl))
shift_lem (suc (suc (suc zero))) h = inr (inr (inr refl))
shift_lem (suc (suc (suc (suc v)))) h = absurd (omega arith)

-- The value of a pixel lies in 12 bits, or at most 508 above the pixel before it.
pub record IsNextPx (prev : ℕ) (r : Result ℕ) : Type 0 where
  pub value : ℕ
  pub returns : r ≡ ok value
  pub range : (value ≤ 4095) ⊎ (value ≤ prev + 508)

pub branch-IsNextPx :
    (j shift prev : ℕ)
    → prev ≤ 60000
    → bit_or (shl 16 j shift) (bit_and prev (65535 - shl 16 65535 shift)) ≤ 4095
    → (shift ≡ 4) ⊎ (shl 16 j shift ≤ shl 16 0x80 shift + 508)
    → IsNextPx prev (decode_next_px j shift prev)
unfolding decode_next_px add16
branch-IsNextPx j shift prev hp lossy step = elim (Bool-cases (j == 0)) [
  | inl same ↦ record { value = prev; returns = rw same refl; range = inr (omega arith) }
  | inr more ↦ elim (Bool-cases (ltb prev (shl 16 0x80 shift) || shift == 4)) [
    | inl replaced ↦ record {
      value = bit_or (shl 16 j shift) (bit_and prev (65535 - shl 16 65535 shift));
      returns = rw (more, replaced) refl;
      range = inl lossy;
    }
    | inr added ↦ record {
      value = prev - shl 16 0x80 shift + shl 16 j shift;
      returns = rw (more, added) (ground arith);
      range = inr (ground arith);
    }
  ]
]

pub lossy_lem :
    (j s prev : ℕ)
    → j * 2 ^ s < 2 ^ 12
    → 2 ^ s ≤ 2 ^ 12
    → 0 < 2 ^ s
    → bit_or (j * 2 ^ s) (bit_and prev (low_mask s)) ≤ 4095
lossy_lem j s prev hj hs pos =
    rw (bit_and_mask s prev)
      (omega (arith, bit_or-lt 12 (j * 2 ^ s) (prev % 2 ^ s) hj (omega (arith, mod-lt prev pos))))

pub decode_next_px_lem :
    (j shift prev : ℕ)
    → j < 256
    → IsShift shift
    → prev ≤ 60000
    → IsNextPx prev (decode_next_px j shift prev)
decode_next_px_lem j shift prev hj s hp = branch-IsNextPx j shift prev hp (lossy s) (step s)
  where
    fits : (n : ℕ) → n < 65536 → n % 65536 ≡ n
    fits n h = omega arith

    lossy :
        IsShift shift → bit_or (shl 16 j shift) (bit_and prev (65535 - shl 16 65535 shift)) ≤ 4095
    lossy (inl e) =
        rw (e, fits (j * 1) (omega arith))
          (lossy_lem j 0 prev (omega arith) (omega arith) (omega arith))
    lossy (inr (inl e)) =
        rw (e, fits (j * 2) (omega arith))
          (lossy_lem j 1 prev (omega arith) (omega arith) (omega arith))
    lossy (inr (inr (inl e))) =
        rw (e, fits (j * 4) (omega arith))
          (lossy_lem j 2 prev (omega arith) (omega arith) (omega arith))
    lossy (inr (inr (inr e))) =
        rw (e, fits (j * 16) (omega arith))
          (lossy_lem j 4 prev (omega arith) (omega arith) (omega arith))

    step : IsShift shift → (shift ≡ 4) ⊎ (shl 16 j shift ≤ shl 16 0x80 shift + 508)
    step (inl e) = inr (rw e (omega arith))
    step (inr (inl e)) = inr (rw e (omega arith))
    step (inr (inr (inl e))) = inr (rw e (omega arith))
    step (inr (inr (inr e))) = inl e

-- The state after a pixel, in an outcome that is no panic.
pub record IsPx (px shifts : ℕ) (r : Result (ℕ × Chunk)) : Type 0 where
  pub value : ℕ
  pub chunk : Chunk
  pub returns : r ≡ ok (value, chunk)
  pub range : value ≤ 4095 + 508 * suc px
  pub fine : IsFine (suc px) shifts chunk

abbrev pub extras : Colors → ℕ
extras c = extra c.even + extra c.odd

pub extras-set_nonzero :
    (c : Colors) (px : ℕ)
    → is_nonzero c px ≡ false
    → (extras c ≤ 4) × (extras (set_nonzero c px) ≡ extras c + 4)
unfolding is_nonzero set_nonzero
extras-set_nonzero c px h = ground arith

pub extras-le : (c : Colors) → extras c ≤ 8
extras-le c = ground arith

pub nibbles : (a b : ℕ) → a < 256 → b < 16 → bit_or (shl 16 a 4) b ≤ 4095
nibbles a b ha hb =
    let wide : a * 16 % 65536 ≡ a * 16 = omega (arith, ha) in
    rw wide (omega (arith, bit_or_fields 4 a b hb))

pub load_initial_px_lem :
    (px shifts : ℕ) (c : Chunk)
    → px < 14
    → shifts ≤ 8
    → IsFine px shifts c
    → is_nonzero c.color_nonzero px ≡ false
    → IsPx px shifts (load_initial_px c px)
unfolding load_initial_px
load_initial_px_lem px shifts c hpx hs h zero_so_far =
    let (before, grown) = extras-set_nonzero c.color_nonzero px zero_so_far in
    let (top, e, top_lt) =
      next_lem c.cursor 8 h.sixteen h.bytes (inr (inr refl)) (omega (arith, h.used)) in
    let cursor' = record c.cursor { pos = c.cursor.pos + 8 } in
    let (bottom, e', bottom_lt) =
      next_lem cursor' 4 h.sixteen h.bytes (inr (inl refl)) (omega (arith, h.used)) in
    rw e (elim (Bool-cases (top == 0 && not (is_nonzero c.color_nonzero px))) [
      | inl dark ↦ rw dark (record {
        value = bit_or (shl 16 top 4) 0;
        chunk = record c { cursor = cursor' };
        returns = refl;
        range = omega (arith, nibbles top 0 top_lt (omega arith));
        fine = record {
          sixteen = h.sixteen;
          bytes = h.bytes;
          used = omega (arith, h.used);
          fourteen = h.fourteen;
          bounded = All-weaken _ _ c.out (omega arith) h.bounded;
        };
      })
      | inr more ↦
          rw (more, e')
            (record {
              value = bit_or (shl 16 top 4) bottom;
              chunk = record c {
                cursor = record cursor' { pos = c.cursor.pos + 8 + 4 };
                color_nonzero = set_nonzero c.color_nonzero px;
              };
              returns = refl;
              range = omega (arith, nibbles top bottom top_lt bottom_lt);
              fine = record {
                sixteen = h.sixteen;
                bytes = h.bytes;
                used = omega (arith, h.used, grown);
                fourteen = h.fourteen;
                bounded = All-weaken _ _ c.out (omega arith) h.bounded;
              };
            })
    ])
