-- ===== src/Nikon/Quantized/Picture.antt =====
-- The picture that the quantized decompressor gives for encoded samples.
use libopenraw.Prelude.{
  ℕ, zero, suc, ◌+◌, ◌-◌, ◌*◌, ◌^◌, ◌%◌, ◌≤◌, ◌<◌, ◌≡◌, refl, sym, ap, ◌∙◌, subst, Bool, List, [],
  ◌∷◌, ◌++◌, append_assoc, map, length, length-append, replicate, replicate-add, get_or, All,
  Result, ok, index_lem, update-append, le→leb, lt→ltb, ge→ltb, bit_and, bit_and_mask, arith,
}
use libopenraw.BitSource.{BitReaderCrate, IsBitReader, bytes_bits}
use libopenraw.Nikon.Huffman.{HuffmanNode}
use libopenraw.Nikon.Cfa.{CfaIterator, new_cfa}
use libopenraw.Nikon.Cfa.Samples.{
  IsShaped, Encodes, after_sample, after_sample-IsShaped, next_sample-HasNext,
}
use libopenraw.Nikon.Quantized.{shade, store_sample, read_row, read_rows, decompress_quantized}

-- A row without its last sample.
abbrev pub but_last : List ℕ → List ℕ
but_last [] = []
but_last (x ∷ []) = []
but_last (x ∷ y ∷ ys) = x ∷ but_last (y ∷ ys)

-- The value on the curve, as a sample of 16 bits.
abbrev pub on_curve : List ℕ → ℕ → ℕ → ℕ
on_curve curve bpc t = get_or curve (t % 2 ^ 14) 0 * 2 ^ (16 - bpc) % 2 ^ 16

abbrev pub picture_of : List ℕ → ℕ → List (List ℕ) → List ℕ
picture_of curve bpc [] = []
picture_of curve bpc (row ∷ rows) =
    map (on_curve curve bpc) (but_last row) ++ picture_of curve bpc rows

abbrev pub concat : List (List ℕ) → List ℕ
concat [] = []
concat (row ∷ rows) = row ++ concat rows

abbrev blank : List ℕ → List ℕ
blank xs = map (λ _. 0) (but_last xs)

blank_lem : (xs : List ℕ) (n : ℕ) → length xs ≡ suc n → blank xs ≡ replicate n 0
blank_lem [] n e = absurd (omega arith)
blank_lem (x ∷ []) zero e = refl
blank_lem (x ∷ []) (suc n) e = absurd (omega arith)
blank_lem (x ∷ y ∷ ys) zero e = absurd (omega arith)
blank_lem (x ∷ y ∷ ys) (suc n) e = ap (λ t. 0 ∷ t) (blank_lem (y ∷ ys) n (omega arith))

length-but_last :
    (f : ℕ → ℕ) (xs : List ℕ) (n : ℕ) → length xs ≡ suc n → length (map f (but_last xs)) ≡ n
length-but_last f [] n e = absurd (omega arith)
length-but_last f (x ∷ []) n e = omega arith
length-but_last f (x ∷ y ∷ ys) zero e = absurd (omega arith)
length-but_last f (x ∷ y ∷ ys) (suc n) e = ap suc (length-but_last f (y ∷ ys) n (omega arith))

shade_lem :
    (curve : List ℕ) (bpc t : ℕ)
    → 2 ^ 14 ≤ length curve
    → 1 ≤ bpc
    → bpc ≤ 16
    → shade curve bpc t ≡ ok (on_curve curve bpc t)
unfolding shade
shade_lem curve bpc t long low high =
    let masked : bit_and t 0x3fff ≡ t % 2 ^ 14 = bit_and_mask 14 t in
    rw
      (
        masked,
        index_lem curve (t % 2 ^ 14) 0 (omega (arith, long)),
        le→leb bpc 16 high,
        lt→ltb (16 - bpc) 16 (omega (arith, low)),
      )
      refl

module _ (c : BitReaderCrate) (laws : IsBitReader c) (table : List HuffmanNode) (curve : List ℕ)
    (bpc columns : ℕ) (long : 2 ^ 14 ≤ length curve) (low : 1 ≤ bpc) (high : bpc ≤ 16) where
  store_lem :
      (i j t : ℕ) (written others : List ℕ)
      → j < columns
      → i * columns + j ≡ length written
      → store_sample curve bpc columns i j t (written ++ 0 ∷ others)
        ≡ ok (written ++ on_curve curve bpc t ∷ others)
  unfolding store_sample
  store_lem i j t written others inside at =
      rw (lt→ltb j columns inside, shade_lem curve bpc t long low high)
        (update-append written others 0 (on_curve curve bpc t) (i * columns + j) at)

  past_lem :
      (i j t : ℕ) (picture : List ℕ)
      → columns ≤ j
      → store_sample curve bpc columns i j t picture ≡ ok picture
  unfolding store_sample
  past_lem i j t picture outside = rw (ge→ltb j columns outside) refl

  -- The row is written, and the samples of the later rows are left.
  record HasRow (later : List ℕ) (rest : List Bool) (picture : List ℕ)
      (m : Result (List ℕ × CfaIterator × c.State)) : Type 0 where
    pub it : CfaIterator
    pub after : c.State
    pub bits : List Bool
    pub returns : m ≡ ok (picture, it, after)
    pub shaped : IsShaped it
    pub encodes : Encodes table it later bits
    pub left : laws.bits after ≡ bits ++ rest

  read_row-HasRow :
      (xs later : List ℕ) (i j : ℕ) (it : CfaIterator) (s : c.State) (all rest : List Bool)
      (written tail : List ℕ)
      → j + length xs ≡ columns + 1
      → i * columns + j ≡ length written
      → IsShaped it
      → Encodes table it (xs ++ later) all
      → laws.bits s ≡ all ++ rest
      → HasRow later rest
          (written ++ (map (on_curve curve bpc) (but_last xs) ++ tail))
          (read_row c table curve bpc columns (length xs) i j it s (written ++ (blank xs ++ tail)))
  unfolding read_row
  read_row-HasRow [] later i j it s all rest written tail place at shaped code e = record {
    it = it;
    after = s;
    bits = all;
    returns = refl;
    shaped = shaped;
    encodes = code;
    left = e;
  }
  read_row-HasRow (x ∷ []) later i j it s all rest written tail place at shaped code e =
      let first = next_sample-HasNext c laws table it x later s all rest shaped code e in
      rw (first.returns, past_lem i j x (written ++ tail) (omega (arith, place)))
        (record {
          it = after_sample it x;
          after = first.after;
          bits = first.bits;
          returns = refl;
          shaped = after_sample-IsShaped it x shaped;
          encodes = first.encodes;
          left = first.left;
        })
  read_row-HasRow (x ∷ y ∷ ys) later i j it s all rest written tail place at shaped code e =
      let first =
        next_sample-HasNext c laws table it x (y ∷ ys ++ later) s all rest shaped code e in
      let v = on_curve curve bpc x in
      let others =
        read_row-HasRow (y ∷ ys) later i (j + 1) (after_sample it x) first.after first.bits rest
          (written ++ v ∷ []) tail (omega (arith, place))
          (omega (arith, at, length-append written (v ∷ []))) (after_sample-IsShaped it x shaped)
          first.encodes first.left in
      rw
        (
          first.returns,
          store_lem i j x written (blank (y ∷ ys) ++ tail) (omega (arith, place)) at,
          sym (append_assoc written (v ∷ []) (blank (y ∷ ys) ++ tail)),
          others.returns,
        )
        (record {
          it = others.it;
          after = others.after;
          bits = others.bits;
          returns =
              ap (λ t. ok (t, others.it, others.after))
                (append_assoc written (v ∷ [])
                  (map (on_curve curve bpc) (but_last (y ∷ ys)) ++ tail));
          shaped = others.shaped;
          encodes = others.encodes;
          left = others.left;
        })

  next_row_at : (i n m : ℕ) → i * columns ≡ n → m ≡ columns → (i + 1) * columns ≡ n + m
  next_row_at i n m e k = grind (arith, e, k)

  read_rows-lem :
      (rows : List (List ℕ)) (i : ℕ) (it : CfaIterator) (s : c.State) (all rest : List Bool)
      (written : List ℕ)
      → All (λ row. length row ≡ columns + 1) rows
      → i * columns ≡ length written
      → IsShaped it
      → Encodes table it (concat rows) all
      → laws.bits s ≡ all ++ rest
      → read_rows c table curve bpc columns
          (length rows)
          i
          it
          s
          (written ++ replicate (length rows * columns) 0)
        ≡ ok (written ++ picture_of curve bpc rows)
  unfolding read_rows
  read_rows-lem [] i it s all rest written full at shaped code e =
      let none_left : 0 * columns ≡ 0 = omega arith in rw none_left refl
  read_rows-lem (row ∷ rows) i it s all rest written full at shaped code e =
      let tail : List ℕ = replicate (length rows * columns) 0 in
      let width : length row ≡ suc columns = omega (arith, full.0) in
      let more_rows : suc (length rows) * columns ≡ columns + length rows * columns = grind arith in
      let space : replicate (suc (length rows) * columns) 0 ≡ blank row ++ tail =
        ap (λ n. replicate n 0) more_rows
        ∙ replicate-add columns (length rows * columns) 0
        ∙ ap (λ t. t ++ tail) (sym (blank_lem row columns width)) in
      let one : i * columns + 0 ≡ length written = omega (arith, at) in
      let values : List ℕ = map (on_curve curve bpc) (but_last row) in
      let first =
        read_row-HasRow row (concat rows) i 0 it s all rest written tail (omega (arith, full.0)) one
          shaped code e in
      let here =
        subst
          (λ n.
            read_row c table curve bpc columns n i 0 it s (written ++ (blank row ++ tail))
            ≡ ok (written ++ (values ++ tail), first.it, first.after))
          full.0 first.returns in
      let others =
        read_rows-lem rows (i + 1) first.it first.after first.bits rest (written ++ values) full.1
          (next_row_at i (length written) (length values) at
              (length-but_last (on_curve curve bpc) row columns width)
            ∙ sym (length-append written values))
          first.shaped first.encodes first.left in
      rw (space, here, sym (append_assoc written values tail))
        (others ∙ ap ok (append_assoc written values (picture_of curve bpc rows)))

-- With a reader that does what the crate documents: for a curve of 2 ^ 14 values at least, samples of
-- 1 to 16 bits, and bytes that hold the encoding of rows of `raw_columns` samples, the decompressed
-- picture has the values on the curve of all samples but the last of each row.
pub decompress_quantized-Encodes :
    (c : BitReaderCrate) (laws : IsBitReader c) (table : List HuffmanNode) (vpred : List (List ℕ))
    (curve : List ℕ) (bpc raw_columns : ℕ) (rows : List (List ℕ)) (bytes : List ℕ)
    (all rest : List Bool)
    → length vpred ≡ 2
    → All (λ line. length line ≡ 2) vpred
    → 2 ^ 14 ≤ length curve
    → 1 ≤ bpc
    → bpc ≤ 16
    → 1 ≤ raw_columns
    → All (λ row. length row ≡ raw_columns) rows
    → Encodes table (new_cfa raw_columns vpred) (concat rows) all
    → bytes_bits bytes ≡ all ++ rest
    → decompress_quantized c table vpred curve bpc (length rows) raw_columns bytes
      ≡ ok (picture_of curve bpc rows)
unfolding decompress_quantized new_cfa
decompress_quantized-Encodes c laws table vpred curve bpc raw_columns rows bytes all rest two each
      long low high wide full code e =
    let columns = raw_columns - 1 in
    let back : raw_columns ≡ columns + 1 = omega (arith, wide) in
    rw (le→leb 1 raw_columns wide) (
      read_rows-lem c laws table curve bpc columns long low high rows 0 (new_cfa raw_columns vpred)
        (c.new bytes) all rest [] (subst (λ n. All (λ row. length row ≡ n) rows) back full)
        (omega arith) (record { two_rows = two; two_each = each; two_columns = refl }) code
        (laws.of_new bytes ∙ e))
