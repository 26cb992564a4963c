-- ===== src/Decompress/BitReader/Filling.antt =====
-- The reader always gets its bits while there are eight bytes left.
use native.Mathlib.Nat.{mod-lt, one-le-pow}
use libopenraw.Prelude.{
  ℕ, zero, suc, ◌+◌, ◌-◌, ◌*◌, ◌/◌, ◌%◌, ◌^◌, ◌≤◌, ◌<◌, ◌≡◌, refl, ap, ◌∙◌, inl, inr, Bool-cases,
  Option, none, some, ◌==◌, ltb, ltb→lt, ltb→ge, le→leb, if◌then◌else◌, length, get_or, Result, ok,
  err, decompression, index_lem, arith, gt→leb,
}
use libopenraw.Decompress.BitReader.{
  LJpegBitReader, read_u8, next_byte, load, fill_rounds, fill_bit_buffer, fill_on, peek, consume,
  get_bits,
}
use libopenraw.Decompress.BitReader.Masks.{shown_lem}

-- What `next_byte` returns from `r`.
record IsNext (nbits : ℕ) (r : LJpegBitReader) (m : Result (Option ℕ × LJpegBitReader))
    : Type 0 where
  byte : Option ℕ
  after : LJpegBitReader
  returns : m ≡ ok (byte, after)
  same : after.buffer ≡ r.buffer
  left : after.bits_left ≡ r.bits_left
  near : after.pos ≤ r.pos + 2
  stops : byte ≡ none → nbits < r.bits_left

read_u8_lem :
    (r : LJpegBitReader)
    → r.pos < length r.buffer
    → read_u8 r ≡ ok (get_or r.buffer r.pos 0, record r { pos = r.pos + 1 })
unfolding read_u8
read_u8_lem r h = rw (index_lem r.buffer r.pos 0 h) refl

next_byte-IsNext :
    (nbits : ℕ) (r : LJpegBitReader)
    → r.pos + 2 ≤ length r.buffer
    → IsNext nbits r (next_byte nbits r)
unfolding next_byte
next_byte-IsNext nbits r h =
    let c = get_or r.buffer r.pos 0 in
    let c2 = get_or r.buffer (r.pos + 1) 0 in
    let first = read_u8_lem r (omega (arith, h)) in
    let second = read_u8_lem (record r { pos = r.pos + 1 }) (omega (arith, h)) in
    let back : r.pos + 1 + 1 - 2 ≡ r.pos = omega arith in
    elim (Bool-cases (c == 0xff)) [
      | inr e ↦ record {
        byte = some c;
        after = record r { pos = r.pos + 1 };
        returns = rw (first, e) refl;
        same = refl;
        left = refl;
        near = omega arith;
        stops = λ n. absurd cc;
      }
      | inl e ↦ elim (Bool-cases (c2 == 0)) [
        | inl f ↦ record {
          byte = some c;
          after = record r { pos = r.pos + 1 + 1 };
          returns = rw (first, e, second, f) refl;
          same = refl;
          left = refl;
          near = omega arith;
          stops = λ n. absurd cc;
        }
        | inr f ↦ elim (Bool-cases (ltb nbits r.bits_left)) [
          | inl g ↦ record {
            byte = none;
            after = record r { pos = r.pos + 1 + 1 - 2 };
            returns = rw (first, e, second, f, g) refl;
            same = refl;
            left = refl;
            near = omega arith;
            stops = λ n. ltb→lt nbits r.bits_left g;
          }
          | inr g ↦ record {
            byte = some 0;
            after = record r { pos = r.pos + 1 + 1 - 2 };
            returns = rw (first, e, second, f, g) refl;
            same = refl;
            left = refl;
            near = omega arith;
            stops = λ n. absurd cc;
          }
        ]
      ]
    ]

-- The buffer has the bits that were asked for, after at most `k` rounds from `r`.
record IsFilled (nbits k : ℕ) (r : LJpegBitReader) (m : Result LJpegBitReader) : Type 0 where
  after : LJpegBitReader
  returns : m ≡ ok after
  same : after.buffer ≡ r.buffer
  enough : nbits ≤ after.bits_left
  cap : after.bits_left ≤ 32
  near : after.pos ≤ r.pos + 2 * k

-- A round that took a byte, or stopped before a marker with bits to spare.
round-IsFilled :
    (nbits k : ℕ) (r : LJpegBitReader) (byte : Option ℕ) (after : LJpegBitReader)
    (next : LJpegBitReader → Result LJpegBitReader)
    → after.buffer ≡ r.buffer
    → after.bits_left ≡ r.bits_left
    → after.pos ≤ r.pos + 2
    → (byte ≡ none → nbits < r.bits_left)
    → r.bits_left ≤ 32
    → ((c : ℕ) → IsFilled nbits k (load c after) (next (load c after)))
    → IsFilled nbits (suc k) r (fill_on (byte, after) next)
unfolding load
round-IsFilled nbits k r none after next same left near stops cap ih = record {
  after = after;
  returns = refl;
  same = same;
  enough = omega (arith, stops refl, left);
  cap = omega (arith, cap, left);
  near = omega (arith, near);
}
round-IsFilled nbits k r (some c) after next same left near stops cap ih =
    let f = ih c in
    record {
      after = f.after;
      returns = f.returns;
      same = f.same ∙ same;
      enough = f.enough;
      cap = f.cap;
      near = omega (arith, near, f.near);
    }

fill_rounds-IsFilled :
    (k nbits : ℕ) (r : LJpegBitReader)
    → nbits ≤ 16
    → r.bits_left ≤ 32
    → 25 ≤ r.bits_left + 8 * k
    → r.pos + 2 * k ≤ length r.buffer
    → IsFilled nbits k r (fill_rounds k nbits r)
unfolding fill_rounds load
fill_rounds-IsFilled zero nbits r few cap goal bytes = record {
  after = r;
  returns = refl;
  same = refl;
  enough = omega (arith, few, goal);
  cap = cap;
  near = omega arith;
}
fill_rounds-IsFilled (suc k) nbits r few cap goal bytes = elim (Bool-cases (ltb r.bits_left 25)) [
  | inl e ↦
      let below = ltb→lt r.bits_left 25 e in
      let b = next_byte-IsNext nbits r (omega (arith, bytes)) in
      rw (e, b.returns)
        (round-IsFilled nbits k r b.byte b.after (fill_rounds k nbits) b.same b.left b.near b.stops
          cap
          (λ c.
            fill_rounds-IsFilled k nbits (load c b.after) few (omega (arith, below, b.left))
              (omega (arith, goal, b.left)) (omega (arith, bytes, b.near, ap length b.same))))
  | inr e ↦ rw e (record {
    after = r;
    returns = refl;
    same = refl;
    enough = omega (arith, few, ltb→ge r.bits_left 25 e);
    cap = cap;
    near = omega arith;
  })
]

-- The bits that were read, from `r`: the top ones of those that the reader then held.
pub record IsRead (nbits : ℕ) (r : LJpegBitReader) (m : Result (ℕ × LJpegBitReader)) : Type 0 where
  pub value : ℕ
  pub after : LJpegBitReader
  pub returns : m ≡ ok (value, after)
  pub field : value ≡ after.bits / 2 ^ after.bits_left % 2 ^ nbits
  pub bounded : value < 2 ^ nbits
  pub same : after.buffer ≡ r.buffer
  pub cap : after.bits_left ≤ 32
  pub near : after.pos ≤ r.pos + 8

filled_lem :
    (nbits : ℕ) (r : LJpegBitReader)
    → nbits ≤ 16
    → r.bits_left ≤ 32
    → r.pos + 8 ≤ length r.buffer
    → IsFilled nbits 4 r (if ltb r.bits_left nbits then fill_bit_buffer nbits r else ok r)
unfolding fill_bit_buffer
filled_lem nbits r few cap bytes = elim (Bool-cases (ltb r.bits_left nbits)) [
  | inl e ↦ rw e (fill_rounds-IsFilled 4 nbits r few cap (omega arith) (omega (arith, bytes)))
  | inr e ↦ rw e (record {
    after = r;
    returns = refl;
    same = refl;
    enough = ltb→ge r.bits_left nbits e;
    cap = cap;
    near = omega arith;
  })
]

-- `get_bits` refuses more than 16 bits. From a reader that holds at most 32 bits and has 8 bytes left
-- it returns for every count from 1 to 16: the value is below 2 to the count and is the field of the
-- loaded bits above those that remain, at most 32 bits remain, and at most 8 bytes were passed.
pub get_bits_outcome :
    (nbits : ℕ) (r : LJpegBitReader)
    → (17 ≤ nbits → get_bits nbits r ≡ err decompression)
      × (1 ≤ nbits
          → nbits ≤ 16
          → r.bits_left ≤ 32
          → r.pos + 8 ≤ length r.buffer
          → IsRead nbits r (get_bits nbits r))
unfolding get_bits peek consume
get_bits_outcome nbits r = (
  λ many. rw (le→leb 17 nbits many) refl,
  λ some_bits few cap bytes.
      let f = filled_lem nbits r few cap bytes in
      rw
        (
          gt→leb 17 nbits (omega (arith, few)),
          f.returns,
          shown_lem nbits f.after some_bits few f.enough f.cap,
          le→leb nbits f.after.bits_left f.enough,
        )
        (record {
          value = f.after.bits / 2 ^ (f.after.bits_left - nbits) % 2 ^ nbits;
          after = record f.after { bits_left = f.after.bits_left - nbits };
          returns = refl;
          field = refl;
          bounded =
              mod-lt (f.after.bits / 2 ^ (f.after.bits_left - nbits))
                (omega (arith, one-le-pow nbits 2));
          same = f.same;
          cap = omega (arith, f.cap);
          near = omega (arith, f.near);
        }),
)
