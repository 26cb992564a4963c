-- ===== src/Decompress/Ljpeg/Codes/Decoded.antt =====
-- A code and a difference are decoded from their bits.
use native.Mathlib.Nat.{one-le-pow, pow-le-pow_right, div-lt_iff_lt-mul}
use libopenraw.Prelude.{
  ℕ, ◌+◌, ◌-◌, ◌*◌, ◌/◌, ◌^◌, ◌≤◌, ◌<◌, ◌≡◌, refl, sym, ap, ◌∙◌, subst, Bool, false, List, ◌++◌,
  append_assoc, ◌==◌, ge→ltb, length, length-append, take, take-length, drop-length, pow_add, ℤ,
  pos, negsuc, ◌+ℤ◌, ◌-ℤ◌, arith,
}
use libopenraw.BitSource.{low_bits, bytes_bits, value_of}
use libopenraw.BitSource.Fields.{length-low_bits, front_field, value_of-low_bits}
use libopenraw.Decompress.WordReader.Stream.{take-low_bits, drop-low_bits, value_of-low_bits_mod}
use libopenraw.Decompress.BitReader.{LJpegBitReader}
use libopenraw.Decompress.BitReader.Stream.{zeros, IsBefore, HasBits}
use libopenraw.Decompress.BitReader.Stream.Steps.{
  peek-IsPeeked, consume-IsBefore, get_bits-value_of,
}
use libopenraw.Decompress.Ljpeg.Huffman.{HuffmanTable, index_signed, huff_decode, decode_difference}
use libopenraw.Decompress.Ljpeg.Signs.{sent_bits, IsOfSize, extend_sign-sent_bits}
use libopenraw.Decompress.Ljpeg.Codes.{Codes, IsShort, IsLong, short, long}
use libopenraw.Decompress.Ljpeg.Codes.Longer.{longer_code-IsLonger}

place_lem :
    (ptr c first : ℕ) → first ≤ c → pos ptr +ℤ (pos c -ℤ pos first) ≡ pos (ptr + (c - first))
unfolding ◌+ℤ◌ ◌-ℤ◌
place_lem ptr c first h = ground arith

-- What is sent for a difference fits its size.
sent_bits-lt : (d : ℤ) (size : ℕ) → 1 ≤ size → IsOfSize d size → sent_bits d size < 2 ^ size
sent_bits-lt (pos n) size some_bits fits = fits.1
sent_bits-lt (negsuc n) size some_bits fits = omega (arith, fits.1, one-le-pow size 2)

module _ (m : ℕ) (rest : List ℕ) where
  -- The bits of a reader that was asked for 8 are at least as many.
  held_length :
      (bits : List Bool) (r : LJpegBitReader)
      → 8 ≤ r.bits_left
      → (before : IsBefore m rest bits r) → 8 ≤ length (bits ++ zeros before.padding)
  held_length bits r enough before = omega (
    arith,
    ap length before.held,
    length-append (low_bits r.bits_left r.bits) (bytes_bits before.ws),
    length-low_bits r.bits_left r.bits,
  )

  -- A code of at most 8 bits.
  short_code :
      (t : HuffmanTable) (symbol l c : ℕ) (bits : List Bool) (r : LJpegBitReader)
      → 1 ≤ m
      → IsShort t symbol l c
      → IsBefore m rest (low_bits l c ++ bits) r
      → HasBits m rest symbol bits (huff_decode t r)
  unfolding huff_decode
  short_code t symbol l c bits r marker coded before =
      let stream : List Bool = low_bits l c ++ bits in
      let p = peek-IsPeeked m rest 8 stream r marker (omega arith) (omega arith) before in
      let more : List Bool = bits ++ zeros p.before.padding in
      let joined : stream ++ zeros p.before.padding ≡ low_bits l c ++ more =
        append_assoc (low_bits l c) bits (zeros p.before.padding) in
      let size : l + (8 - l) ≡ 8 = omega (arith, coded.few) in
      let enough : 8 - l ≤ length more = omega (
        arith,
        held_length stream p.after p.enough p.before,
        ap length joined,
        length-append (low_bits l c) more,
        length-low_bits l c,
      ) in
      let (v, under, value) = front_field l (8 - l) c more coded.under enough in
      let shown : value_of (take 8 (stream ++ zeros p.before.padding)) ≡ c * 2 ^ (8 - l) + v =
        ap (λ t. value_of (take 8 t)) joined
        ∙ ap (λ n. value_of (take n (low_bits l c ++ more))) (sym size)
        ∙ value in
      let some_bits : (l == 0) ≡ false = ground (arith, coded.some_bits) in
      let inside : l ≤ length stream =
        omega (arith, length-append (low_bits l c) bits, length-low_bits l c) in
      let (r', eats, before') =
        consume-IsBefore m rest l stream p.after (omega (arith, p.enough, coded.few)) inside
          p.before in
      record {
        after = r';
        returns =
            rw (p.returns, shown, coded.size v under, some_bits, eats, coded.found v under) refl;
        before =
            subst (λ b. IsBefore m rest b r')
              (drop-length (low_bits l c) bits l (sym (length-low_bits l c))) before';
      }

  -- A code of 8 and `d` more bits.
  long_code :
      (t : HuffmanTable) (symbol d c : ℕ) (bits : List Bool) (r : LJpegBitReader)
      → 1 ≤ m
      → c < 2 ^ (8 + d)
      → IsLong t symbol d c
      → IsBefore m rest (low_bits (8 + d) c ++ bits) r
      → HasBits m rest symbol bits (huff_decode t r)
  unfolding huff_decode index_signed
  long_code t symbol d c bits r marker under coded before =
      let stream : List Bool = low_bits (8 + d) c ++ bits in
      let p = peek-IsPeeked m rest 8 stream r marker (omega arith) (omega arith) before in
      let joined : stream ++ zeros p.before.padding
          ≡ low_bits (8 + d) c ++ (bits ++ zeros p.before.padding) =
        append_assoc (low_bits (8 + d) c) bits (zeros p.before.padding) in
      let byte : c / 2 ^ d < 2 ^ 8 =
        (div-lt_iff_lt-mul (one-le-pow d 2 (omega arith))).1
          (subst (λ p. c < p) (pow_add 8 d) under) in
      let shown : value_of (take 8 (stream ++ zeros p.before.padding)) ≡ c / 2 ^ d =
        ap (λ t. value_of (take 8 t)) joined
        ∙ ap value_of (take-low_bits 8 d c (bits ++ zeros p.before.padding))
        ∙ value_of-low_bits_mod 8 (c / 2 ^ d)
        ∙ omega (arith, byte) in
      let inside : 8 ≤ length stream =
        omega (arith, length-append (low_bits (8 + d) c) bits, length-low_bits (8 + d) c) in
      let (r', eats, before') = consume-IsBefore m rest 8 stream p.after p.enough inside p.before in
      let behind = drop-low_bits 8 d c bits in
      let up : 2 ^ (8 + d) ≤ 2 ^ 16 =
        pow-le-pow_right (omega arith) {i = 8 + d} {j = 16} (omega (arith, coded.few)) in
      let small : c < 2 ^ 16 = omega (arith, under, up) in
      let longer =
        longer_code-IsLonger m rest t symbol d d 0 10 c bits r' marker (omega (arith, coded.few))
          (omega arith) small coded (subst (λ b. IsBefore m rest b r') behind before') in
      record {
        after = longer.after;
        returns =
            rw
              (
                p.returns,
                shown,
                coded.no_lookup,
                eats,
                longer.returns,
                ge→ltb 16 (8 + d) (omega (arith, coded.few)),
                coded.place_of,
                coded.first_of,
                place_lem coded.place c coded.first coded.behind,
                coded.found,
              )
              refl;
        before = longer.before;
      }

  -- The code of a symbol is read, and the reader stands behind it.
  pub huff_decode-HasBits :
      (t : HuffmanTable) (symbol : ℕ) (code bits : List Bool) (r : LJpegBitReader)
      → 1 ≤ m
      → Codes t symbol code
      → IsBefore m rest (code ++ bits) r
      → HasBits m rest symbol bits (huff_decode t r)
  huff_decode-HasBits t symbol code bits r marker (short l c coded is) before =
      short_code t symbol l c bits r marker coded
        (subst (λ b. IsBefore m rest (b ++ bits) r) is before)
  huff_decode-HasBits t symbol code bits r marker (long d c under coded is) before =
      long_code t symbol d c bits r marker under coded
        (subst (λ b. IsBefore m rest (b ++ bits) r) is before)

  -- Where a code stands for the size of a difference and the bits behind it are those that an encoder
  -- sends for it, the decoder returns the difference and stands behind them.
  pub decode_difference-sent_bits :
      (t : HuffmanTable) (d : ℤ) (size : ℕ) (code bits : List Bool) (r : LJpegBitReader)
      → 1 ≤ m
      → Codes t size code
      → 1 ≤ size
      → size ≤ 16
      → IsOfSize d size
      → IsBefore m rest (code ++ (low_bits size (sent_bits d size) ++ bits)) r
      → HasBits m rest d bits (decode_difference t r)
  unfolding decode_difference
  decode_difference-sent_bits t d size code bits r marker coded some_bits few fits before =
      let h =
        huff_decode-HasBits t size code (low_bits size (sent_bits d size) ++ bits) r marker coded
          before in
      let x : ℕ = sent_bits d size in
      let stream : List Bool = low_bits size x ++ bits in
      let inside : size ≤ length stream =
        omega (arith, length-append (low_bits size x) bits, length-low_bits size x) in
      let g = get_bits-value_of m rest size stream h.after marker some_bits few inside h.before in
      let value : value_of (take size stream) ≡ x =
        ap value_of (take-length (low_bits size x) bits size (sym (length-low_bits size x)))
        ∙ value_of-low_bits size x 0 (sent_bits-lt d size some_bits fits)
        ∙ omega arith in
      let other : (size == 0) ≡ false = ground (arith, some_bits) in
      record {
        after = g.after;
        returns =
            rw (h.returns, other, g.returns, value, extend_sign-sent_bits d size some_bits few fits)
              refl;
        before =
            subst (λ b. IsBefore m rest b g.after)
              (drop-length (low_bits size x) bits size (sym (length-low_bits size x))) g.before;
      }

  -- A difference of 0 is its code alone.
  pub decode_difference_zero :
      (t : HuffmanTable) (code bits : List Bool) (r : LJpegBitReader)
      → 1 ≤ m
      → Codes t 0 code
      → IsBefore m rest (code ++ bits) r
      → HasBits m rest (pos 0) bits (decode_difference t r)
  unfolding decode_difference
  decode_difference_zero t code bits r marker coded before =
      let h = huff_decode-HasBits t 0 code bits r marker coded before in
      record { after = h.after; returns = rw (h.returns) refl; before = h.before }
