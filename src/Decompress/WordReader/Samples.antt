-- ===== src/Decompress/WordReader/Samples.antt =====
-- Reading from the words is reading from their bits.
use libopenraw.Prelude.{
  ℕ, suc, ◌+◌, ◌-◌, ◌/◌, ◌%◌, ◌^◌, ◌≤◌, ◌<◌, ◌≡◌, refl, sym, ap, ◌∙◌, Bool, List, [], ◌∷◌, ◌++◌,
  append_assoc, append-nil, All, length, length-append, take, drop, take-length, drop-length,
  gt→leb, lt→ltb, Result, ok, err, panic, io_error, arith,
}
use libopenraw.Io.{ByteOrder, big_endian, little_endian, ByteOrderCrate, IsByteOrder}
use libopenraw.BitSource.{low_bits, value_of}
use libopenraw.BitSource.Fields.{length-low_bits, value_of-low_bits}
use libopenraw.Decompress.Blocks.Rows.{row_bits}
use libopenraw.Decompress.WordReader.{
  WordReader, load_word, word_peek, word_consume, after_peek, word_get_bits, fourteen_loop,
  unpack_14to16,
}
use libopenraw.Decompress.WordReader.Stream.{value_of-low_bits_mod, take-low_bits, drop-low_bits}
use libopenraw.Decompress.WordReader.Loads.{
  pending, IsAt, HasBits, word_peek-HasLoaded, word_consume-IsAt,
}

module _ (c : ByteOrderCrate) (laws : IsByteOrder c) (o : ByteOrder) (tail : List ℕ) where
  -- With a byte order that does what the crate documents: while `n` bits, 16 at most, are left, both
  -- readers give the next `n` bits as a number, and the bits behind them are left.
  pub word_get_bits-HasBits :
      (n : ℕ) (r : WordReader) (ws : List ℕ)
      → n ≤ 16
      → IsAt o tail r ws
      → n ≤ length (pending r ws)
      → HasBits c laws o tail
          (value_of (take n (pending r ws)))
          (drop n (pending r ws))
          (word_get_bits c o n r)
  unfolding word_get_bits after_peek
  word_get_bits-HasBits n r ws small at enough =
      let p = word_peek-HasLoaded c laws o tail n r ws small at enough in
      let k : ℕ = p.after.bits_left - n in
      let count : p.after.bits_left ≡ n + k = omega (arith, p.enough) in
      let (r', consumed, at', others) =
        word_consume-IsAt c laws o tail o n k p.after p.ws p.at count in
      let bits : List Bool = row_bits 32 p.ws in
      let split : pending r ws ≡ low_bits (n + k) p.after.bits ++ bits =
        sym p.same ∙ ap (λ l. low_bits l p.after.bits ++ bits) count in
      let value : value_of (take n (pending r ws)) ≡ p.after.bits / 2 ^ k % 2 ^ n =
        ap (λ t. value_of (take n t)) split
        ∙ ap value_of (take-low_bits n k p.after.bits bits)
        ∙ value_of-low_bits_mod n (p.after.bits / 2 ^ k) in
      rw (gt→leb 17 n (omega (arith, small)), p.returns)
        (record {
          after = r';
          ws = p.ws;
          returns = rw consumed (ap (λ v. ok (v, r')) (sym value));
          at = at';
          rest = others ∙ sym (drop-low_bits n k p.after.bits bits) ∙ sym (ap (drop n) split);
        })

  fourteen_loop-row_bits :
      (xs : List ℕ) (r : WordReader) (ws out_data : List ℕ) (written : ℕ) (rest : List Bool)
      → All (λ x. x < 2 ^ 14) xs
      → IsAt o tail r ws
      → pending r ws ≡ row_bits 14 xs ++ rest
      → fourteen_loop c o (length xs) r out_data written ≡ ok (written + length xs, out_data ++ xs)
  unfolding fourteen_loop
  fourteen_loop-row_bits [] r ws out_data written rest fits at e =
      ground (arith, append-nil out_data)
  fourteen_loop-row_bits (x ∷ xs) r ws out_data written rest fits at e =
      let others : List Bool = row_bits 14 xs ++ rest in
      let size = length-low_bits 14 x in
      let here : pending r ws ≡ low_bits 14 x ++ others =
        e ∙ append_assoc (low_bits 14 x) (row_bits 14 xs) rest in
      let enough : 14 ≤ length (pending r ws) =
        omega (arith, ap length here, length-append (low_bits 14 x) others, size) in
      let first = word_get_bits-HasBits 14 r ws (omega arith) at enough in
      let value : value_of (take 14 (pending r ws)) ≡ x =
        ap (λ t. value_of (take 14 t)) here
        ∙ ap value_of (take-length (low_bits 14 x) others 14 (sym size))
        ∙ value_of-low_bits 14 x 0 fits.0
        ∙ omega arith in
      let behind : pending first.after first.ws ≡ others =
        first.rest ∙ ap (drop 14) here ∙ drop-length (low_bits 14 x) others 14 (sym size) in
      let next : written + 1 + length xs ≡ written + suc (length xs) = omega arith in
      rw (first.returns, value)
        (fourteen_loop-row_bits xs first.after first.ws (out_data ++ x ∷ []) (written + 1) rest
            fits.1 first.at behind
          ∙ ap ok (rw (next, append_assoc out_data (x ∷ []) xs) refl))

  -- With a byte order that does what the crate documents: where the bits of the words that are left
  -- start with samples of 14 bits, `unpack_14to16` appends these samples, and returns their number.
  pub unpack_14to16-row_bits :
      (xs : List ℕ) (r : WordReader) (ws out_data : List ℕ) (rest : List Bool)
      → All (λ x. x < 2 ^ 14) xs
      → IsAt o tail r ws
      → pending r ws ≡ row_bits 14 xs ++ rest
      → unpack_14to16 c o r (length xs) out_data ≡ ok (length xs, out_data ++ xs)
  unfolding unpack_14to16
  unpack_14to16-row_bits xs r ws out_data rest fits at e =
      fourteen_loop-row_bits xs r ws out_data 0 rest fits at e
      ∙ ap (λ n. ok (n, out_data ++ xs)) (omega arith)

-- What is returned at the end of the bytes.
abbrev pub end_of : ByteOrder → Result (ℕ × WordReader)
end_of big_endian = panic
end_of little_endian = err io_error

-- Where fewer bits are loaded than are asked for, 16 at most, and no word is left: the little-endian
-- reader returns the error of the read, and the big-endian one panics, since it consumes the bits
-- that it does not have.
pub word_get_bits_end :
    (c : ByteOrderCrate) (o : ByteOrder) (n : ℕ) (r : WordReader)
    → n ≤ 16
    → r.bits_left < n
    → length r.bytes < 4
    → word_get_bits c o n r ≡ end_of o
unfolding word_get_bits word_peek load_word after_peek word_consume
word_get_bits_end c big_endian n r small short none_left =
    rw
      (
        gt→leb 17 n (omega (arith, small)),
        lt→ltb r.bits_left n short,
        gt→leb 4 (length r.bytes) none_left,
        gt→leb n r.bits_left short,
      )
      refl
word_get_bits_end c little_endian n r small short none_left =
    rw
      (
        gt→leb 17 n (omega (arith, small)),
        lt→ltb r.bits_left n short,
        gt→leb 4 (length r.bytes) none_left,
      )
      refl
