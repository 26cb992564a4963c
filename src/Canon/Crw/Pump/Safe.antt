-- ===== src/Canon/Crw/Pump/Safe.antt =====
-- The pump never panics, and does not give more bits than the file holds.
use native.Mathlib.Nat.{mod-lt, one-le-pow}
use libopenraw.Prelude.{
  ℕ, zero, suc, ◌+◌, ◌-◌, ◌*◌, ◌/◌, ◌%◌, ◌^◌, ◌≤◌, ◌<◌, ◌≡◌, refl, ap, ◌∙◌, inl, inr, Bool-cases,
  ◌==◌, leb, leb→le, ltb, ltb→lt, ltb→ge, le→leb, length, length-take, length-drop, take, drop, ok,
  ◌>>=◌, index_lem, Safely, Safely-bind, Safely-weaken, pos, arith,
}
use libopenraw.Io.{View, view_read}
use libopenraw.Canon.Crw.Pump.{BitPump, Pumped, view_u8, pass_zero, pump_byte, fill_pump, get_bits}
use libopenraw.Canon.Crw.Pump.Bits.{top_bits_lem}

-- The bits that the pump and the bytes that are left can give at most.
abbrev pub room : Pumped → ℕ
room p = p.0.vbits + 8 * (length p.1.bytes - p.1.pos)

-- A pump between two calls of `get_bits`.
pub record IsPrimed (p : Pumped) : Type 0 where
  pub full : 25 ≤ p.0.vbits
  pub cap : p.0.vbits ≤ 32

-- The view went on by at least `n` bytes, inside the file.
record IsPast (n : ℕ) (view after : View) : Type 0 where
  same : after.bytes ≡ view.bytes
  near : view.pos + n ≤ after.pos
  inside : view.pos + n ≤ length view.bytes

view_u8-Safely : (view : View) → Safely (λ r. IsPast 1 view r.1) (view_u8 view)
unfolding view_u8 view_read
view_u8-Safely view = elim (Bool-cases (leb (view.pos + 1) (length view.bytes))) [
  | inr e ↦ rw e tt
  | inl e ↦
      let inside = leb→le (view.pos + 1) (length view.bytes) e in
      let one : 0 < length (take 1 (drop view.pos view.bytes)) = omega (
        arith,
        inside,
        length-take 1 (drop view.pos view.bytes),
        length-drop view.pos view.bytes,
      ) in
      rw (e, index_lem (take 1 (drop view.pos view.bytes)) 0 0 one)
        (record { same = refl; near = omega arith; inside = inside })
]

pass_zero-Safely :
    (c : ℕ) (view behind : View)
    → IsPast 1 view behind
    → Safely (λ after. IsPast 1 view after) (pass_zero c behind)
unfolding pass_zero
pass_zero-Safely c view behind past = elim (Bool-cases (c == 0xff)) [
  | inr e ↦ rw e past
  | inl e ↦ rw e (
      Safely-bind (λ r. IsPast 1 behind r.1) (λ after. IsPast 1 view after) (view_u8 behind)
        (λ r. ok r.1) (view_u8-Safely behind)
        (λ r next. record {
          same = next.same ∙ past.same;
          near = omega (arith, past.near, next.near);
          inside = past.inside;
        }))
]

abbrev IsFilled : Pumped → Pumped → Type 0
IsFilled p after = IsPrimed after × (room after ≤ room p)

-- A round: what it loads was in the file.
round :
    (left : ℕ) (pump : BitPump) (view v : View) (c : ℕ)
    → pump.vbits < 25
    → 25 ≤ pump.vbits + 8 * suc left
    → IsPast 1 view v
    → ((pump_byte c pump).vbits ≤ 32
        → 25 ≤ (pump_byte c pump).vbits + 8 * left
        → Safely (IsFilled (pump_byte c pump, v)) (fill_pump left (pump_byte c pump) v))
    → Safely (IsFilled (pump, view)) (fill_pump left (pump_byte c pump) v)
unfolding pump_byte
round left pump view v c few near past rec =
    Safely-weaken (IsFilled (pump_byte c pump, v)) (IsFilled (pump, view))
      (fill_pump left (pump_byte c pump) v) (rec (omega (arith, few)) (omega (arith, near)))
      (λ after filled.
        (filled.0, omega (arith, filled.1, past.near, past.inside, ap length past.same)))

fill_pump-Safely :
    (left : ℕ) (p : Pumped)
    → p.0.vbits ≤ 32
    → 25 ≤ p.0.vbits + 8 * left
    → Safely (IsFilled p) (fill_pump left p.0 p.1)
unfolding fill_pump
fill_pump-Safely zero p cap near = (record { full = omega (arith, near); cap = cap }, omega arith)
fill_pump-Safely (suc left) (pump, view) cap near = elim (Bool-cases (ltb pump.vbits 25)) [
  | inr e ↦ rw e (record { full = ltb→ge pump.vbits 25 e; cap = cap }, omega arith)
  | inl e ↦
      let few = ltb→lt pump.vbits 25 e in
      rw e (
        Safely-bind (λ r. IsPast 1 view r.1) (IsFilled (pump, view)) (view_u8 view)
          (λ r. do v ← pass_zero r.0 r.1; fill_pump left (pump_byte r.0 pump) v)
          (view_u8-Safely view)
          (λ r past.
            Safely-bind (IsPast 1 view) (IsFilled (pump, view)) (pass_zero r.0 r.1)
              (λ v. fill_pump left (pump_byte r.0 pump) v) (pass_zero-Safely r.0 view r.1 past)
              (λ v past'.
                round left pump view v r.0 few near past'
                  (fill_pump-Safely left (pump_byte r.0 pump, v)))))
]

-- From a full pump, `get_bits` of 1 to 25 bits never panics: it fails at the end of the file, or
-- returns a number of that many bits and leaves the pump full, with as many fewer bits to come.
pub get_bits-Safely :
    (n : ℕ) (p : Pumped)
    → 1 ≤ n
    → n ≤ 25
    → IsPrimed p
    → Safely
        (λ r. (r.0 < 2 ^ n) × IsPrimed r.1 × (room r.1 + n ≤ room p))
        (get_bits (pos n) p.0 p.1)
unfolding get_bits
get_bits-Safely zero p some_bits few primed = absurd (omega (arith, some_bits))
get_bits-Safely (suc n) (pump, view) some_bits few primed =
    let enough : suc n ≤ pump.vbits = omega (arith, few, primed.full) in
    let left : BitPump = record pump { vbits = pump.vbits - suc n } in
    let v : ℕ = pump.bitbuf / 2 ^ (pump.vbits - suc n) % 2 ^ suc n in
    rw (top_bits_lem (suc n) pump some_bits enough primed.cap, le→leb (suc n) pump.vbits enough)
      (Safely-bind (IsFilled (left, view))
        (λ r. (r.0 < 2 ^ suc n) × IsPrimed r.1 × (room r.1 + suc n ≤ room (pump, view)))
        (fill_pump 4 left view) (λ p'. ok (v, p'))
        (fill_pump-Safely 4 (left, view) (omega (arith, primed.cap)) (omega arith))
        (λ p' filled. (
          mod-lt (pump.bitbuf / 2 ^ (pump.vbits - suc n)) (one-le-pow (suc n) 2 (omega arith)),
          filled.0,
          omega (arith, filled.1, enough),
        )))
