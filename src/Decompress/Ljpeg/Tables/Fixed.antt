-- ===== src/Decompress/Ljpeg/Tables/Fixed.antt =====
-- `HuffmanTable::fix` returns for the tables that a segment can hold, and the table that it returns
-- decodes the canonical code.
use libopenraw.Prelude.{
  ℕ, ◌≤◌, ◌<◌, ◌≡◌, refl, ap, ◌∙◌, List, All, length, length-replicate, set, drop, replicate,
  Result, ok, ◌>>=◌, index, update, update_lem, update-append, ℤ, pos, arith,
}
use libopenraw.Decompress.Ljpeg.Huffman.{
  HuffmanTable, fix, write_all_sizes, write_all_codes, write_all_lookups, write_encoding,
  write_all_decoding,
}
use libopenraw.Decompress.Ljpeg.Tables.{sizes_from, IsFitting, book_from}
use libopenraw.Decompress.Ljpeg.Tables.Numbered.{length-codes_from}
use libopenraw.Decompress.Ljpeg.Tables.Bounds.{set-SameBelow, write_all_decoding-IsDecoding}
use libopenraw.Decompress.Ljpeg.Tables.Encoder.{write_encoding_returns}
use libopenraw.Decompress.Ljpeg.Tables.Coded.{StandsFor, walk_short}
use libopenraw.Decompress.Ljpeg.Tables.Parts.{IsBounded-SameBelow}
use libopenraw.Decompress.Ljpeg.Tables.Arrays.{
  lastp_of, padding, huffsize_of, huffcode_of, sized, numbered, all_places,
  write_all_lookups-HasAllLookups,
}

-- A table that was filled from a segment: at most 256 codes, that fit, for symbols of a byte.
pub record IsFilled (t : HuffmanTable) : Type 0 where
  pub counts : length t.bits ≡ 17
  pub symbols : length t.huffval ≡ 256
  pub bytes : All (λ symbol. symbol < 256) t.huffval
  pub fits : IsFitting t.bits 16 1 0
  pub total : length (sizes_from t.bits 16 1) ≤ 256
  pub codes : length t.ehufco ≡ 256
  pub places : length t.valptr ≡ 17
  pub firsts : length t.mincode ≡ 17
  pub lasts : length t.maxcode ≡ 18
  pub values : length t.value ≡ 256

-- A table whose lookups and bounds decode the canonical code.
pub record IsFixed (bits huffval : List ℕ) (step : Result HuffmanTable) : Type 0 where
  pub after : HuffmanTable
  pub returns : step ≡ ok after
  pub decodes : All (StandsFor after) (book_from bits huffval 16 1 0 0)

-- A step that returned, and what follows.
on_ok : {A B : Type 0} (f : A → Result B) {m : Result A} {a : A} → m ≡ ok a → (m >>= f) ≡ f a
on_ok f e = ap (λ r. r >>= f) e

-- The steps of `fix`.
fix_steps :
    (t t1 t2 after : HuffmanTable) (sizes huffsize huffcode : List ℕ) (lastp si : ℕ)
    (maxcode : List ℤ)
    → write_all_sizes t.bits 16 1 (replicate 257 0) 0 ≡ ok (sizes, lastp)
    → update sizes lastp 0 ≡ ok huffsize
    → index huffsize 0 ≡ ok si
    → write_all_codes 18 huffsize si (replicate 257 0) 0 0 ≡ ok huffcode
    → write_encoding lastp 0 huffsize huffcode (record t { ehufsi = replicate 256 0 }) ≡ ok t1
    → write_all_decoding huffcode 16 1 0 t1 ≡ ok t2
    → update t2.maxcode 17 (pos 0xfffff) ≡ ok maxcode
    → write_all_lookups lastp 0 huffsize huffcode
        (record t2 { maxcode = maxcode; numbits = replicate 256 0 })
      ≡ ok after
    → fix t ≡ ok after
unfolding fix
fix_steps t t1 t2 after sizes huffsize huffcode lastp si maxcode a b c d e f g h =
    on_ok _ a ∙ on_ok _ b ∙ on_ok _ c ∙ on_ok _ d ∙ on_ok _ e ∙ on_ok _ f ∙ on_ok _ g ∙ h

-- For a table that a segment filled, with at most 256 codes that fit, none of them all ones, `fix`
-- returns a table in which the bits of every code of the canonical code stand for its symbol.
pub fix-IsFixed : (t : HuffmanTable) → IsFilled t → IsFixed t.bits t.huffval (fix t)
fix-IsFixed t f =
    let N : ℕ = lastp_of t.bits in
    let HS : List ℕ = huffsize_of t.bits in
    let HC : List ℕ = huffcode_of t.bits in
    let unset : List ℕ = replicate 256 0 in
    let start = numbered t.bits f.total f.fits in
    let room = all_places t.bits f.total in
    let (co, si, encoded) =
      write_encoding_returns N 0 HS HC (record t { ehufsi = unset })
        (omega (arith, f.total, f.symbols)) (omega (arith, f.total, room.0))
        (omega (arith, f.total, room.1)) f.bytes f.codes (length-replicate {A = ℕ} 256 0) in
    let t1 : HuffmanTable = record t { ehufco = co; ehufsi = si } in
    let bounds =
      write_all_decoding-IsDecoding t.bits HC 16 1 0 0 t1 (drop N (replicate 257 0)) (omega arith)
        f.places f.firsts f.lasts f.counts refl
        (omega (arith, f.total, length-codes_from t.bits 16 1 0)) refl in
    let t2 : HuffmanTable = record t1 {
      valptr = bounds.valptr;
      mincode = bounds.mincode;
      maxcode = bounds.maxcode;
    } in
    let last : List ℤ = set bounds.maxcode 17 (pos 0xfffff) in
    let looked =
      write_all_lookups-HasAllLookups t.bits (record t2 { maxcode = last; numbits = unset }) f.total
        f.fits f.symbols f.values refl in
    let after : HuffmanTable = record t2 {
      maxcode = last;
      numbits = looked.sizes;
      value = looked.values;
    } in
    record {
      after = after;
      returns =
          fix_steps t t1 t2 after HS HS HC N start.0 last (sized t.bits f.counts f.total)
            (update-append (sizes_from t.bits 16 1) (padding t.bits) 0 0 N refl) start.1 start.2
            encoded bounds.returns
            (update_lem bounds.maxcode 17 (pos 0xfffff) (omega (arith, bounds.lasts)))
            looked.returns;
      decodes =
          walk_short after t.bits 16 8 1 0 0 (omega arith) (omega arith) (omega arith) looked.found
            (IsBounded-SameBelow bounds.valptr bounds.mincode bounds.maxcode last t.bits 16 1 0 0
              (omega arith) (set-SameBelow bounds.maxcode 17 (pos 0xfffff)) bounds.holds)
            f.fits (λ k i sum low. absurd (omega (arith, sum, low))) looked.cleared
            (omega (arith, f.total, f.symbols));
    }
