-- ===== src/Decompress/BitReader/Stream.antt =====
-- The bits that the reader gives, from bytes with stuffed zeros up to a marker.
pub mod Steps
use libopenraw.Prelude.{
  ℕ, zero, suc, ◌+◌, ◌-◌, ◌*◌, ◌/◌, ◌%◌, ◌^◌, ◌≤◌, ◌<◌, ◌≡◌, refl, sym, ap, ◌∙◌, subst, inl, inr,
  Bool, true, false, Bool-cases, Option, none, some, List, [], ◌∷◌, ◌++◌, append_assoc, append-nil,
  All, ◌==◌, ltb, ltb→lt, ltb→ge, le→leb, gt→leb, ne→==, if◌then◌else◌, length, take, drop,
  replicate, replicate-add, index-drop, Result, ok, ◌>>=◌, bit_or, bit_or_fields, shl, arith,
}
use libopenraw.BitSource.{low_bits, bytes_bits, value_of, stuff}
use libopenraw.BitSource.Fields.{length-low_bits}
use libopenraw.Decompress.WordReader.Stream.{
  low_bits-add, take-low_bits, drop-low_bits, value_of-low_bits_mod,
}
use libopenraw.Decompress.BitReader.{
  LJpegBitReader, read_u8, next_byte, load, fill_rounds, fill_bit_buffer, fill_on, peek, consume,
  get_bits,
}
use libopenraw.Decompress.BitReader.Masks.{shown_lem}
use libopenraw.Canon.Crw.Pump.Loads.{low_bits-joined_byte}

abbrev pub zeros : ℕ → List Bool
zeros k = replicate k false

-- The bits that the reader holds, and those of the bytes that it has not loaded.
abbrev pub pending : LJpegBitReader → List ℕ → List Bool
pending r ws = low_bits r.bits_left r.bits ++ bytes_bits ws

read_u8_lem :
    (r : LJpegBitReader) (b : ℕ) (others : List ℕ)
    → drop r.pos r.buffer ≡ b ∷ others
    → (read_u8 r ≡ ok (b, record r { pos = r.pos + 1 })) × (drop (r.pos + 1) r.buffer ≡ others)
unfolding read_u8
read_u8_lem r b others e = let one = index-drop r.buffer r.pos e in (rw (one.0) refl, one.1)

-- A byte joins the bits.
pub pending-load :
    (w : ℕ) (ws : List ℕ) (r : LJpegBitReader)
    → r.bits_left < 25
    → w < 256
    → pending (load w r) ws ≡ pending r (w ∷ ws)
unfolding load
pending-load w ws r few byte =
    let joined : bit_or (shl 32 r.bits 8) w ≡ (shl 32 r.bits 8 + w) % 2 ^ 32 =
      let cut : shl 32 r.bits 8 ≡ r.bits % 2 ^ 24 * 2 ^ 8 = omega arith in
      ap (λ q. bit_or q w) cut ∙ bit_or_fields 8 (r.bits % 2 ^ 24) w byte ∙ omega (arith, byte) in
    ap (λ x. low_bits (r.bits_left + 8) x ++ bytes_bits ws) joined
    ∙ ap (λ t. t ++ bytes_bits ws)
        (low_bits-joined_byte r.bits_left r.bits w (omega (arith, few)) byte)
    ∙ append_assoc (low_bits r.bits_left r.bits) (low_bits 8 w) (bytes_bits ws)

-- The scan ends with the marker of a code `m` other than 0, and `rest` follows.
module _ (m : ℕ) (rest : List ℕ) where
  -- The buffer goes on with the bytes `ws`, stuffed, and then the marker.
  pub record IsAt (r : LJpegBitReader) (ws : List ℕ) : Type 0 where
    pub left : drop r.pos r.buffer ≡ stuff ws ++ (0xff ∷ m ∷ rest)
    pub words : All (λ w. w < 256) ws

  -- The bits are to come, and then the zeros that stand for what is behind the marker.
  pub record IsBefore (bits : List Bool) (r : LJpegBitReader) : Type 0 where
    pub ws : List ℕ
    pub at : IsAt r ws
    pub cap : r.bits_left ≤ 32
    pub padding : ℕ
    pub held : pending r ws ≡ bits ++ zeros padding

  -- A step that returned a value, with the reader behind it.
  pub record HasBits {A : Type 0} (value : A) (bits : List Bool)
      (step : Result (A × LJpegBitReader)) : Type 0 where
    pub after : LJpegBitReader
    pub returns : step ≡ ok (value, after)
    pub before : IsBefore bits after

  pub record HasByte (nbits w : ℕ) (ws : List ℕ) (r : LJpegBitReader) : Type 0 where
    pub place : ℕ
    pub returns : next_byte nbits r ≡ ok (some w, record r { pos = place })
    pub at : IsAt (record r { pos = place }) ws

  pub next_byte-HasByte :
      (nbits w : ℕ) (ws : List ℕ) (r : LJpegBitReader) → IsAt r (w ∷ ws) → HasByte nbits w ws r
  unfolding next_byte
  next_byte-HasByte nbits w ws r at = elim (Bool-cases (w == 0xff)) [
    | inr e ↦
        let one = read_u8_lem r w (stuff ws ++ (0xff ∷ m ∷ rest)) (rw e at at.left) in
        record {
          place = r.pos + 1;
          returns = rw (one.0, e) refl;
          at = record { left = one.1; words = at.words.1 };
        }
    | inl e ↦
        let is_ff : w ≡ 255 = ground (arith, e) in
        let one = read_u8_lem r 255 (0 ∷ stuff ws ++ (0xff ∷ m ∷ rest)) (rw e at at.left) in
        let two =
          read_u8_lem (record r { pos = r.pos + 1 }) 0 (stuff ws ++ (0xff ∷ m ∷ rest)) one.1 in
        record {
          place = r.pos + 1 + 1;
          returns =
              rw (one.0, two.0)
                (ap (λ b. ok (some b, record r { pos = r.pos + 1 + 1 })) (sym is_ff));
          at = record { left = two.1; words = at.words.1 };
        }
  ]

  pub next_byte_end :
      (nbits : ℕ) (r : LJpegBitReader)
      → 1 ≤ m
      → IsAt r []
      → next_byte nbits r ≡ ok (if ltb nbits r.bits_left then none else some 0, r)
  unfolding next_byte
  next_byte_end nbits r marker at =
      let one = read_u8_lem r 255 (m ∷ rest) at.left in
      let two = read_u8_lem (record r { pos = r.pos + 1 }) m rest one.1 in
      let back : r.pos + 1 + 1 - 2 ≡ r.pos = omega arith in
      let other : (m == 0) ≡ false = ground (arith, marker) in
      elim (Bool-cases (ltb nbits r.bits_left)) [
        | inl e ↦ rw (one.0, two.0, other, e, back) refl
        | inr e ↦ rw (one.0, two.0, other, e, back) refl
      ]
