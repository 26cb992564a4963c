-- ===== src/Canon/Crw/Pump/Bits.antt =====
-- The pump gives the bits of the bytes that were stuffed.
use libopenraw.Prelude.{
  ℕ, zero, suc, ◌+◌, ◌-◌, ◌*◌, ◌/◌, ◌%◌, ◌^◌, ◌≤◌, ◌<◌, ◌≡◌, refl, sym, ap, ◌∙◌, inl, inr, Bool,
  Bool-cases, List, [], ◌∷◌, ◌++◌, append_assoc, length, length-append, length-drop, take, drop,
  le→leb, lt→ltb, ltb, ltb→lt, ltb→ge, ge→ltb, subst, Result, ok, pos, negsuc, arith,
}
use libopenraw.Io.{View}
use libopenraw.BitSource.{low_bits, bytes_bits, value_of}
use libopenraw.BitSource.Fields.{length-low_bits}
use libopenraw.Decompress.WordReader.Stream.{take-low_bits, drop-low_bits, value_of-low_bits_mod}
use libopenraw.Canon.Crw.Pump.{
  BitPump, Pumped, pump_byte, fill_pump, top_bits, get_bits, empty_pump,
}
use libopenraw.Canon.Crw.Pump.Stuffed.{pending, IsAt, view_u8-HasByte}
use libopenraw.Canon.Crw.Pump.Loads.{top_lem, low_bits-joined_byte}

-- The pump is full, and stands before `bits`.
pub record IsBefore (tail bytes : List ℕ) (bits : List Bool) (p : Pumped) : Type 0 where
  pub ws : List ℕ
  pub at : IsAt tail bytes p.1 ws
  pub full : 25 ≤ p.0.vbits
  pub cap : p.0.vbits ≤ 32
  pub rest : pending p.0 ws ≡ bits

-- A step that returned a value, with the pump behind it.
pub record HasBits {A : Type 0} (tail bytes : List ℕ) (value : A) (bits : List Bool)
    (m : Result (A × Pumped)) : Type 0 where
  pub after : Pumped
  pub returns : m ≡ ok (value, after)
  pub before : IsBefore tail bytes bits after

record IsFull (tail bytes : List ℕ) (bits : List Bool) (m : Result Pumped) : Type 0 where
  after : Pumped
  returns : m ≡ ok after
  before : IsBefore tail bytes bits after

-- A pump that is full as it is.
as_it_is :
    (tail bytes : List ℕ) (pump : BitPump) (view : View) (ws : List ℕ)
    → IsAt tail bytes view ws
    → pump.vbits ≤ 32
    → 25 ≤ pump.vbits
    → IsFull tail bytes (pending pump ws) (ok (pump, view))
as_it_is tail bytes pump view ws at cap full = record {
  after = (pump, view);
  returns = refl;
  before = record { ws = ws; at = at; full = full; cap = cap; rest = refl };
}

pending-pump_byte :
    (w : ℕ) (ws : List ℕ) (pump : BitPump)
    → pump.vbits < 25
    → w < 256
    → pending (pump_byte w pump) ws ≡ pending pump (w ∷ ws)
unfolding pump_byte
pending-pump_byte w ws pump few byte =
    ap (λ t. t ++ bytes_bits ws)
      (low_bits-joined_byte pump.vbits pump.bitbuf w (omega (arith, few)) byte)
    ∙ append_assoc (low_bits pump.vbits pump.bitbuf) (low_bits 8 w) (bytes_bits ws)

fill_pump-IsFull :
    (left : ℕ) (tail bytes : List ℕ) (pump : BitPump) (view : View) (ws : List ℕ)
    → IsAt tail bytes view ws
    → pump.vbits ≤ 32
    → 25 ≤ pump.vbits + 8 * left
    → 32 ≤ length (pending pump ws)
    → IsFull tail bytes (pending pump ws) (fill_pump left pump view)
unfolding fill_pump
fill_pump-IsFull zero tail bytes pump view ws at cap near enough =
    as_it_is tail bytes pump view ws at cap (omega (arith, near))
fill_pump-IsFull (suc left) tail bytes pump view [] at cap near enough =
    let none_more = length-append (low_bits pump.vbits pump.bitbuf) [] in
    let full : 25 ≤ pump.vbits =
      omega (arith, enough, none_more, length-low_bits pump.vbits pump.bitbuf) in
    rw (ge→ltb pump.vbits 25 full) (as_it_is tail bytes pump view [] at cap full)
fill_pump-IsFull (suc left) tail bytes pump view (w ∷ ws) at cap near enough =
    elim (Bool-cases (ltb pump.vbits 25)) [
      | inr e ↦ rw e (as_it_is tail bytes pump view (w ∷ ws) at cap (ltb→ge pump.vbits 25 e))
      | inl e ↦
          let few = ltb→lt pump.vbits 25 e in
          let b = view_u8-HasByte tail bytes w ws view at in
          let same = pending-pump_byte w ws pump few at.words.0 in
          rw (e, b.loads, b.passes)
            (subst (λ bits. IsFull tail bytes bits (fill_pump left (pump_byte w pump) b.after)) same
              (fill_pump-IsFull left tail bytes (pump_byte w pump) b.after ws b.at
                (unfold pump_byte in omega (arith, few)) (unfold pump_byte in omega (arith, near))
                (omega (arith, enough, ap length same))))
    ]

pub top_bits_lem :
    (n : ℕ) (pump : BitPump)
    → 1 ≤ n
    → n ≤ pump.vbits
    → pump.vbits ≤ 32
    → top_bits n pump ≡ ok (pump.bitbuf / 2 ^ (pump.vbits - n) % 2 ^ n)
unfolding top_bits
top_bits_lem n pump some_bits few cap =
    rw
      (
        lt→ltb 0 pump.vbits (omega (arith, some_bits, few)),
        le→leb pump.vbits 32 cap,
        le→leb n 32 (omega (arith, few, cap)),
        top_lem pump.bitbuf n pump.vbits few cap,
      )
      refl

-- A full pump gives the next bits, from 1 to 25, as a number and stands behind them: what it holds
-- and the bytes that follow are in one sequence, in which the zeros behind 0xff are left out. Behind
-- the bits there are 32 more.
pub get_bits-HasBits :
    (tail bytes : List ℕ) (n : ℕ) (bits : List Bool) (p : Pumped)
    → 1 ≤ n
    → n ≤ 25
    → IsBefore tail bytes bits p
    → n + 32 ≤ length bits
    → HasBits tail bytes (value_of (take n bits)) (drop n bits) (get_bits (pos n) p.0 p.1)
unfolding get_bits
get_bits-HasBits tail bytes zero bits p some_bits few before enough =
    absurd (omega (arith, some_bits))
get_bits-HasBits tail bytes (suc n) bits (pump, view) some_bits few before enough =
    let ws = before.ws in
    let k = pump.vbits - suc n in
    let size : suc n + k ≡ pump.vbits = omega (arith, few, before.full) in
    let left : BitPump = record pump { vbits = k } in
    let field : bits ≡ low_bits (suc n + k) pump.bitbuf ++ bytes_bits ws =
      sym before.rest ∙ ap (λ v. low_bits v pump.bitbuf ++ bytes_bits ws) (sym size) in
    let behind : drop (suc n) bits ≡ pending left ws =
      ap (drop (suc n)) field ∙ drop-low_bits (suc n) k pump.bitbuf (bytes_bits ws) in
    let value : value_of (take (suc n) bits) ≡ pump.bitbuf / 2 ^ k % 2 ^ suc n =
      ap (λ t. value_of (take (suc n) t)) field
      ∙ ap value_of (take-low_bits (suc n) k pump.bitbuf (bytes_bits ws))
      ∙ value_of-low_bits_mod (suc n) (pump.bitbuf / 2 ^ k) in
    let enough' : 32 ≤ length (pending left ws) =
      omega (arith, enough, ap length behind, length-drop (suc n) bits) in
    let f =
      fill_pump-IsFull 4 tail bytes left view ws before.at (omega (arith, before.cap)) (omega arith)
        enough' in
    record {
      after = f.after;
      returns =
          rw
            (
              top_bits_lem (suc n) pump some_bits (omega (arith, few, before.full)) before.cap,
              le→leb (suc n) pump.vbits (omega (arith, few, before.full)),
              f.returns,
              value,
            )
            refl;
      before = subst (λ t. IsBefore tail bytes t f.after) (sym behind) f.before;
    }

-- `get_bits` of -1 fills the pump.
pub get_bits-start :
    (tail bytes : List ℕ) (pump : BitPump) (view : View) (ws : List ℕ)
    → IsAt tail bytes view ws
    → 32 ≤ length (bytes_bits ws)
    → HasBits tail bytes 0 (bytes_bits ws) (get_bits (negsuc 0) pump view)
unfolding get_bits
get_bits-start tail bytes pump view ws at enough =
    let f =
      fill_pump-IsFull 4 tail bytes empty_pump view ws at (omega arith) (omega arith) enough in
    record { after = f.after; returns = rw (f.returns) refl; before = f.before }
