-- ===== src/Decompress/BitReader/Stream/Steps.antt =====
-- Loading, showing and consuming the bits before a marker.
use libopenraw.Prelude.{
  ℕ, zero, suc, ◌+◌, ◌-◌, ◌*◌, ◌/◌, ◌%◌, ◌^◌, ◌≤◌, ◌<◌, ◌≡◌, refl, sym, ap, ◌∙◌, inl, inr, Bool,
  false, Bool-cases, List, [], ◌∷◌, ◌++◌, append_assoc, append-nil, ltb, ltb→lt, ltb→ge, le→leb,
  gt→leb, if◌then◌else◌, length, take, drop, replicate-add, Result, ok, ◌>>=◌, arith,
}
use libopenraw.BitSource.{low_bits, bytes_bits, value_of}
use libopenraw.Decompress.WordReader.Stream.{take-low_bits, drop-low_bits, value_of-low_bits_mod}
use libopenraw.Decompress.BitReader.{
  LJpegBitReader, next_byte, load, fill_rounds, fill_bit_buffer, fill_on, peek, consume, get_bits,
}
use libopenraw.Decompress.BitReader.Masks.{shown_lem}
use libopenraw.Decompress.BitReader.Stream.{
  zeros, pending, pending-load, IsAt, IsBefore, HasBits, next_byte-HasByte, next_byte_end,
}

take-inside : (n : ℕ) (xs ys : List Bool) → n ≤ length xs → take n (xs ++ ys) ≡ take n xs
take-inside zero xs ys h = refl
take-inside (suc n) [] ys h = absurd (omega arith)
take-inside (suc n) (x ∷ xs) ys h = ap (λ t. x ∷ t) (take-inside n xs ys (omega (arith, h)))

drop-inside : (n : ℕ) (xs ys : List Bool) → n ≤ length xs → drop n (xs ++ ys) ≡ drop n xs ++ ys
drop-inside zero xs ys h = refl
drop-inside (suc n) [] ys h = absurd (omega arith)
drop-inside (suc n) (x ∷ xs) ys h = drop-inside n xs ys (omega (arith, h))

-- The scan ends with the marker of a code `m` other than 0, and `rest` follows.
module _ (m : ℕ) (rest : List ℕ) where
  -- The buffer holds the bits that were asked for.
  record IsFilled (nbits : ℕ) (bits : List Bool) (step : Result LJpegBitReader) : Type 0 where
    after : LJpegBitReader
    returns : step ≡ ok after
    before : IsBefore m rest bits after
    enough : nbits ≤ after.bits_left

  as_it_is :
      (nbits : ℕ) (bits : List Bool) (r : LJpegBitReader)
      → IsBefore m rest bits r
      → nbits ≤ r.bits_left
      → IsFilled nbits bits (ok r)
  as_it_is nbits bits r before enough = record {
    after = r;
    returns = refl;
    before = before;
    enough = enough;
  }

  -- A zero is loaded at the marker.
  padded :
      (bits : List Bool) (k : ℕ) (r : LJpegBitReader)
      → r.bits_left < 25
      → pending r [] ≡ bits ++ zeros k
      → pending (load 0 r) [] ≡ bits ++ zeros (k + 8)
  padded bits k r few held =
      pending-load 0 [] r few (omega arith)
      ∙ ap (λ t. t ++ zeros 8) (sym (append-nil (low_bits r.bits_left r.bits)) ∙ held)
      ∙ append_assoc bits (zeros k) (zeros 8)
      ∙ ap (λ t. bits ++ t) (sym (replicate-add k 8 false))

  -- A round, with `next` for the rounds that follow.
  round-IsFilled :
      (left nbits : ℕ) (bits : List Bool) (r : LJpegBitReader)
      (next : LJpegBitReader → Result LJpegBitReader)
      → 1 ≤ m
      → 25 ≤ r.bits_left + 8 * suc left
      → r.bits_left < 25
      → (before : IsBefore m rest bits r)
      → ((r' : LJpegBitReader)
          → 25 ≤ r'.bits_left + 8 * left
          → IsBefore m rest bits r'
          → IsFilled nbits bits (next r'))
      → IsFilled nbits bits (next_byte nbits r >>= λ p. fill_on p next)
  unfolding load
  round-IsFilled left nbits bits r next marker goal small before ih =
      by_bytes before.ws before.at before.held
    where
      by_bytes :
          (ws : List ℕ)
          → IsAt m rest r ws
          → pending r ws ≡ bits ++ zeros before.padding
          → IsFilled nbits bits (next_byte nbits r >>= λ p. fill_on p next)
      by_bytes (w ∷ ws) at held =
          let b = next_byte-HasByte m rest nbits w ws r at in
          rw b.returns (
            ih (load w (record r { pos = b.place })) (omega (arith, goal)) (record {
              ws = ws;
              at = record { left = b.at.left; words = b.at.words };
              cap = omega (arith, small);
              padding = before.padding;
              held = pending-load w ws (record r { pos = b.place }) small at.words.0 ∙ held;
            }))
      by_bytes [] at held = elim (Bool-cases (ltb nbits r.bits_left)) [
        | inl f ↦
            rw (next_byte_end m rest nbits r marker at, f)
              (as_it_is nbits bits r before (omega (arith, ltb→lt nbits r.bits_left f)))
        | inr f ↦
            rw (next_byte_end m rest nbits r marker at, f)
              (ih (load 0 r) (omega (arith, goal)) (record {
                ws = [];
                at = record { left = at.left; words = at.words };
                cap = omega (arith, small);
                padding = before.padding + 8;
                held = padded bits before.padding r small held;
              }))
      ]

  fill_rounds-IsFilled :
      (left nbits : ℕ) (bits : List Bool) (r : LJpegBitReader)
      → 1 ≤ m
      → nbits ≤ 16
      → 25 ≤ r.bits_left + 8 * left
      → IsBefore m rest bits r
      → IsFilled nbits bits (fill_rounds left nbits r)
  unfolding fill_rounds
  fill_rounds-IsFilled zero nbits bits r marker few goal before =
      as_it_is nbits bits r before (omega (arith, few, goal))
  fill_rounds-IsFilled (suc left) nbits bits r marker few goal before =
      elim (Bool-cases (ltb r.bits_left 25)) [
        | inr e ↦ rw e (as_it_is nbits bits r before (omega (arith, few, ltb→ge r.bits_left 25 e)))
        | inl e ↦ rw e (
            round-IsFilled left nbits bits r (fill_rounds left nbits) marker goal
              (ltb→lt r.bits_left 25 e) before
              (λ r' goal' before'.
                fill_rounds-IsFilled left nbits bits r' marker few goal' before'))
      ]

  -- The bits that are shown: the next ones, or zeros behind them.
  pub record IsPeeked (nbits : ℕ) (bits : List Bool) (step : Result (ℕ × LJpegBitReader))
      : Type 0 where
    pub after : LJpegBitReader
    pub before : IsBefore m rest bits after
    pub enough : nbits ≤ after.bits_left
    pub returns : step ≡ ok (value_of (take nbits (bits ++ zeros before.padding)), after)

  filled_lem :
      (nbits : ℕ) (bits : List Bool) (r : LJpegBitReader)
      → 1 ≤ m
      → nbits ≤ 16
      → IsBefore m rest bits r
      → IsFilled nbits bits (if ltb r.bits_left nbits then fill_bit_buffer nbits r else ok r)
  unfolding fill_bit_buffer
  filled_lem nbits bits r marker few before = elim (Bool-cases (ltb r.bits_left nbits)) [
    | inl e ↦ rw e (fill_rounds-IsFilled 4 nbits bits r marker few (omega arith) before)
    | inr e ↦ rw e (as_it_is nbits bits r before (ltb→ge r.bits_left nbits e))
  ]

  -- The first `n` of the bits that a reader holds, as a number.
  field_lem :
      (n : ℕ) (bits : List Bool) (r : LJpegBitReader)
      → n ≤ r.bits_left
      → (before : IsBefore m rest bits r)
      → value_of (take n (bits ++ zeros before.padding)) ≡ r.bits / 2 ^ (r.bits_left - n) % 2 ^ n
  field_lem n bits r few before =
      let k = r.bits_left - n in
      let size : n + k ≡ r.bits_left = omega (arith, few) in
      let field : bits ++ zeros before.padding ≡ low_bits (n + k) r.bits ++ bytes_bits before.ws =
        sym before.held ∙ ap (λ v. low_bits v r.bits ++ bytes_bits before.ws) (sym size) in
      ap (λ t. value_of (take n t)) field
      ∙ ap value_of (take-low_bits n k r.bits (bytes_bits before.ws))
      ∙ value_of-low_bits_mod n (r.bits / 2 ^ k)

  pub peek-IsPeeked :
      (n : ℕ) (bits : List Bool) (r : LJpegBitReader)
      → 1 ≤ m
      → 1 ≤ n
      → n ≤ 16
      → IsBefore m rest bits r
      → IsPeeked n bits (peek n r)
  unfolding peek
  peek-IsPeeked n bits r marker some_bits few before =
      let f = filled_lem n bits r marker few before in
      record {
        after = f.after;
        before = f.before;
        enough = f.enough;
        returns =
            rw
              (
                f.returns,
                shown_lem n f.after some_bits few f.enough f.before.cap,
                field_lem n bits f.after f.enough f.before,
              )
              refl;
      }

  -- The reader stands behind the bits that are consumed.
  pub consume-IsBefore :
      (n : ℕ) (bits : List Bool) (r : LJpegBitReader)
      → n ≤ r.bits_left
      → n ≤ length bits
      → IsBefore m rest bits r
      → (r' : LJpegBitReader) × (consume n r ≡ ok r') × IsBefore m rest (drop n bits) r'
  unfolding consume
  consume-IsBefore n bits r few inside before =
      let k = r.bits_left - n in
      let size : n + k ≡ r.bits_left = omega (arith, few) in
      let field : bits ++ zeros before.padding ≡ low_bits (n + k) r.bits ++ bytes_bits before.ws =
        sym before.held ∙ ap (λ v. low_bits v r.bits ++ bytes_bits before.ws) (sym size) in
      let behind : drop n (bits ++ zeros before.padding)
          ≡ low_bits k r.bits ++ bytes_bits before.ws =
        ap (drop n) field ∙ drop-low_bits n k r.bits (bytes_bits before.ws) in
      (
        record r { bits_left = k },
        rw (le→leb n r.bits_left few) refl,
        record {
          ws = before.ws;
          at = record { left = before.at.left; words = before.at.words };
          cap = omega (arith, before.cap);
          padding = before.padding;
          held = sym behind ∙ drop-inside n bits (zeros before.padding) inside;
        },
      )

  -- A reader that stands before some bits, with stuffed zeros among the bytes and a marker behind
  -- them, gives the next ones, from 1 to 16, as a number, and stands behind them. It gives the last
  -- bit before the marker too.
  pub get_bits-value_of :
      (n : ℕ) (bits : List Bool) (r : LJpegBitReader)
      → 1 ≤ m
      → 1 ≤ n
      → n ≤ 16
      → n ≤ length bits
      → IsBefore m rest bits r
      → HasBits m rest (value_of (take n bits)) (drop n bits) (get_bits n r)
  unfolding get_bits
  get_bits-value_of n bits r marker some_bits few inside before =
      let p = peek-IsPeeked n bits r marker some_bits few before in
      let (r', eats, before') = consume-IsBefore n bits p.after p.enough inside p.before in
      record {
        after = r';
        returns =
            rw
              (
                gt→leb 17 n (omega (arith, few)),
                p.returns,
                eats,
                take-inside n bits (zeros p.before.padding) inside,
              )
              refl;
        before = before';
      }
