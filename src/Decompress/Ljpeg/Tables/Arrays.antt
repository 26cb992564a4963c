-- ===== src/Decompress/Ljpeg/Tables/Arrays.antt =====
-- The arrays of `fix`: the lengths and the codes of 257 places, and all lookups.
use libopenraw.Prelude.{
  ℕ, suc, index, ◌+◌, ◌-◌, ◌/◌, ◌≤◌, ◌≡◌, inr, refl, ap, ap₂, ◌∙◌, List, [], ◌∷◌, ◌++◌,
  append_assoc, length, length-append, length-replicate, length-drop, drop, drop-length, replicate,
  ok, arith,
}
use libopenraw.Decompress.Ljpeg.Huffman.{HuffmanTable, write_all_sizes, write_all_lookups}
use libopenraw.Decompress.Ljpeg.Tables.{sizes_from, codes_from, IsFitting}
use libopenraw.Decompress.Ljpeg.Tables.Sizes.{write_all_sizes_lem}
use libopenraw.Decompress.Ljpeg.Tables.Numbered.{length-codes_from}
use libopenraw.Decompress.Ljpeg.Tables.Levels.{AllLookups, code_behind, write_all_lookups-IsLooked}
use libopenraw.Decompress.Ljpeg.Tables.Coded.{Cleared}
use libopenraw.Decompress.Ljpeg.Tables.Parts.{
  drop_zeros, index-zeros, StartsAt, write_all_codes_start, split_lem, write_all_lookups_long,
  code_behind_even,
}

module _ (bits : List ℕ) where
  abbrev pub lastp_of : ℕ
  lastp_of = length (sizes_from bits 16 1)

  -- The zeros behind the lengths.
  abbrev pub padding : List ℕ
  padding = replicate (256 - lastp_of) 0

  abbrev pub huffsize_of : List ℕ
  huffsize_of = sizes_from bits 16 1 ++ (0 ∷ padding)

  abbrev pub huffcode_of : List ℕ
  huffcode_of = codes_from bits 16 1 0 ++ drop lastp_of (replicate 257 0)

  zeros_left : lastp_of ≤ 256 → drop {A = ℕ} lastp_of (replicate 257 0) ≡ 0 ∷ padding
  zeros_left total =
      let size : ◌≡◌ {A = ℕ} 257 (lastp_of + suc (256 - lastp_of)) = omega (arith, total) in
      ap (λ k. drop {A = ℕ} lastp_of (replicate k 0)) size
      ∙ drop_zeros lastp_of (suc (256 - lastp_of))

  pub sized :
      length bits ≡ 17
      → lastp_of ≤ 256
      → write_all_sizes bits 16 1 (replicate 257 0) 0 ≡ ok (huffsize_of, lastp_of)
  sized counts total =
      write_all_sizes_lem bits 16 1 [] (replicate 257 0) (omega (arith, counts))
        (omega (arith, total, length-replicate {A = ℕ} 257 0))
      ∙ ap₂ (λ hs p. ok (hs, p)) (ap (λ z. sizes_from bits 16 1 ++ z) (zeros_left total))
          (omega arith)

  pub numbered :
      lastp_of ≤ 256
      → IsFitting bits 16 1 0
      → StartsAt (replicate 257 0) padding (sizes_from bits 16 1) (codes_from bits 16 1 0)
  numbered total fits =
      write_all_codes_start bits 16 1 (replicate 257 0) padding (omega arith) (omega arith)
        (omega (arith, total, length-replicate {A = ℕ} 257 0))
        (omega (arith, length-replicate {A = ℕ} 257 0)) fits

  pub all_places : lastp_of ≤ 256 → (length huffsize_of ≡ 257) × (length huffcode_of ≡ 257)
  all_places total = (
    omega (
      arith,
      total,
      length-append (sizes_from bits 16 1) (0 ∷ padding),
      length-replicate {A = ℕ} (256 - lastp_of) 0,
    ),
    omega (
      arith,
      total,
      length-append (codes_from bits 16 1 0) (drop lastp_of (replicate 257 0)),
      length-drop {A = ℕ} lastp_of (replicate 257 0),
      length-codes_from bits 16 1 0,
      length-replicate {A = ℕ} 257 0,
    ),
  )

  -- All lookups, from a table where no size is set.
  pub record HasAllLookups (t : HuffmanTable) : Type 0 where
    pub sizes : List ℕ
    pub values : List ℕ
    pub returns :
        write_all_lookups lastp_of 0 huffsize_of huffcode_of t
        ≡ ok (record t { numbits = sizes; value = values })
    pub found : AllLookups sizes values t.huffval bits 8 1 0 0
    pub cleared : Cleared (record t { numbits = sizes }) 1 (code_behind bits 8 1 0)

  pub write_all_lookups-HasAllLookups :
      (t : HuffmanTable)
      → lastp_of ≤ 256
      → IsFitting bits 16 1 0
      → length t.huffval ≡ 256
      → length t.value ≡ 256
      → t.numbits ≡ replicate 256 0
      → HasAllLookups t
  write_all_lookups-HasAllLookups t total fits symbols values unset =
      let split = split_lem bits 16 8 1 0 (omega arith) (omega arith) fits in
      let short : List ℕ = sizes_from bits 8 1 in
      let others : List ℕ = split.sizes ++ (0 ∷ padding) in
      let m : ℕ = length split.sizes in
      let parts : lastp_of ≡ length short + m =
        ap length split.is_sizes ∙ length-append short split.sizes in
      let reads : huffsize_of ≡ short ++ others =
        ap (λ z. z ++ (0 ∷ padding)) split.is_sizes
        ∙ append_assoc short split.sizes (0 ∷ padding) in
      let more : List ℕ = drop lastp_of (replicate 257 0) in
      let looked =
        write_all_lookups-IsLooked bits 8 m 1 0 0 huffsize_of huffcode_of t others
          (split.codes ++ more) (omega arith) reads
          (ap (λ z. z ++ more) split.is_codes
            ∙ append_assoc (codes_from bits 8 1 0) split.codes more)
          (omega (arith, parts, total, symbols)) split.fitting
          (ap length unset ∙ length-replicate {A = ℕ} 256 0) values in
      let after : HuffmanTable = record t { numbits = looked.sizes; value = looked.values } in
      let behind : drop (0 + length short) huffsize_of ≡ others =
        ap (drop (0 + length short)) reads
        ∙ drop-length short others (0 + length short) (omega arith) in
      let (e, even) = code_behind_even bits 7 1 0 in
      record {
        sizes = looked.sizes;
        values = looked.values;
        returns =
            ap (λ k. write_all_lookups k 0 huffsize_of huffcode_of t) parts
            ∙ looked.returns
            ∙ write_all_lookups_long m (0 + length short) huffsize_of huffcode_of after split.sizes
                (0 ∷ padding) refl split.long behind;
        found = looked.found;
        cleared = λ x above under.
            (looked.kept (x / 2) (inr (omega (arith, even, above)))).0
            ∙ ap (λ z. index z (x / 2)) unset
            ∙ index-zeros 256 (x / 2) (omega (arith, under));
      }
