-- ===== src/Decompress/Blocks/Loop.antt =====
-- The loop over the blocks ends, and gives the rows of its blocks.
use libopenraw.Prelude.{
  ℕ, zero, suc, ◌+◌, ◌-◌, ◌*◌, ◌≤◌, ◌<◌, ◌≡◌, min, inl, inr, refl, sym, ap, ◌∙◌, List, [], ◌∷◌,
  ◌++◌, append_assoc, append-nil, All, length, length-append, take-length, drop-length, Result, ok,
  bind_cong, panic, ltb, lt→ltb, ge→ltb, ltb→lt, le→leb, Bool-cases, arith,
}
use libopenraw.Container.{Endian}
use libopenraw.Tiff.{Compression}
use libopenraw.BitSource.{BitReaderCrate}
use libopenraw.Decompress.Blocks.{
  read_exact, unpack_block, unpack_blocks, unpack_from_reader, block_size,
}

pub read_exact-append :
    (block rest : List ℕ) (n : ℕ)
    → length block ≡ n
    → read_exact n (block ++ rest) ≡ ok (block, rest)
unfolding read_exact
read_exact-append block rest n e =
    rw
      (
        le→leb n (length (block ++ rest)) (omega (arith, length-append block rest, e)),
        take-length block rest n (sym e),
        drop-length block rest n (sym e),
      )
      refl

-- The blocks of a picture one behind the other, and its rows.
abbrev pub blocks_of : List (List ℕ × List ℕ) → List ℕ
blocks_of [] = []
blocks_of (p ∷ ps) = p.0 ++ blocks_of ps

abbrev pub rows_of : List (List ℕ × List ℕ) → List ℕ
rows_of [] = []
rows_of (p ∷ ps) = p.1 ++ rows_of ps

module _ (c : BitReaderCrate) (width bpc : ℕ) (compression : Compression) (endian : Endian) where
  -- With blocks of one byte or more, no more than `byte_len` rounds are made.
  rounds_lem :
      (late late' : Result (List ℕ)) (left left' size byte_len fetched : ℕ)
      (reader out_data : List ℕ)
      → 1 ≤ size
      → byte_len - fetched < left
      → byte_len - fetched < left'
      → unpack_blocks c width bpc compression endian late left size byte_len fetched reader out_data
        ≡ unpack_blocks c width bpc compression endian late' left' size byte_len fetched reader
            out_data
  unfolding unpack_blocks
  rounds_lem late late' zero left' size byte_len fetched reader out_data some_byte h k = elim h [ ]
  rounds_lem late late' (suc left) zero size byte_len fetched reader out_data some_byte h k =
      elim k [ ]
  rounds_lem late late' (suc left) (suc left') size byte_len fetched reader out_data some_byte h k =
      elim (Bool-cases (ltb fetched byte_len)) [
        | inl e ↦
            let further = ltb→lt fetched byte_len e in
            rw (e, unpack_blocks)
              (bind_cong (read_exact size reader) (λ p.
                bind_cong (unpack_block c width bpc compression endian p.0 out_data) (λ q.
                  rounds_lem late late' left left' size byte_len (fetched + size) p.1 q.1 some_byte
                    (omega (arith, h, further, some_byte)) (omega (arith, k, further, some_byte)))))
        | inr e ↦ rw (e, unpack_blocks) refl
      ]

  -- The rounds of the loop are enough: what it would give without rounds left does not matter.
  pub unpack_from_reader_rounds :
      (late : Result (List ℕ)) (reader : List ℕ) (height byte_len size : ℕ)
      → block_size width bpc compression ≡ ok size
      → unpack_from_reader c width bpc compression endian reader height byte_len
        ≡ unpack_blocks c width bpc compression endian late
            (min byte_len (size * height) + 1)
            size
            (min byte_len (size * height))
            0
            reader
            []
  unfolding unpack_from_reader unpack_blocks
  unpack_from_reader_rounds late reader height byte_len zero known =
      let none_wanted : min byte_len (zero * height) ≡ 0 = omega arith in
      rw (known, none_wanted) refl
  unpack_from_reader_rounds late reader height byte_len (suc size) known =
      let wanted : ℕ = min byte_len (suc size * height) in
      rw known (
        rounds_lem panic late (wanted + 1) (wanted + 1) (suc size) wanted 0 reader [] (omega arith)
          (omega arith) (omega arith))

  -- A block that unpacks to a row, whatever is there before.
  pub record IsBlockOf (size : ℕ) (p : List ℕ × List ℕ) : Type 0 where
    pub whole : length p.0 ≡ size
    pub count : ℕ
    pub unpacks :
        (out_data : List ℕ)
        → unpack_block c width bpc compression endian p.0 out_data ≡ ok (count, out_data ++ p.1)

  blocks_lem :
      (late : Result (List ℕ)) (ps : List (List ℕ × List ℕ)) (left size byte_len fetched : ℕ)
      (rest out_data : List ℕ)
      → 1 ≤ size
      → All (IsBlockOf size) ps
      → byte_len ≡ fetched + length ps * size
      → length ps < left
      → unpack_blocks c width bpc compression endian late left size byte_len fetched
          (blocks_of ps ++ rest)
          out_data
        ≡ ok (out_data ++ rows_of ps)
  unfolding unpack_blocks
  blocks_lem late ps zero size byte_len fetched rest out_data some_byte good e h = elim h [ ]
  blocks_lem late [] (suc left) size byte_len fetched rest out_data some_byte good e h =
      rw (ge→ltb fetched byte_len (omega (arith, e)), unpack_blocks, append-nil out_data) refl
  blocks_lem late (p ∷ ps) (suc left) size byte_len fetched rest out_data some_byte good e h =
      let more_left : suc (length ps) * size ≡ size + length ps * size = grind arith in
      rw
        (
          lt→ltb fetched byte_len (omega (arith, e, more_left, some_byte)),
          unpack_blocks,
          append_assoc p.0 (blocks_of ps) rest,
          read_exact-append p.0 (blocks_of ps ++ rest) size good.0.whole,
          good.0.unpacks out_data,
        )
        (blocks_lem late ps left size byte_len (fetched + size) rest (out_data ++ p.1) some_byte
            good.1 (omega (arith, e, more_left)) (omega (arith, h))
          ∙ ap ok (append_assoc out_data p.1 (rows_of ps)))

  -- Where the block of a row has a size of one byte or more, and the reader has the blocks of all rows,
  -- each of which unpacks to its row: the picture is the rows, in order.
  pub unpack_from_reader-blocks :
      (ps : List (List ℕ × List ℕ)) (size byte_len : ℕ) (rest : List ℕ)
      → block_size width bpc compression ≡ ok size
      → 1 ≤ size
      → size * length ps ≤ byte_len
      → All (IsBlockOf size) ps
      → unpack_from_reader c width bpc compression endian
          (blocks_of ps ++ rest)
          (length ps)
          byte_len
        ≡ ok (rows_of ps)
  unfolding unpack_from_reader
  unpack_from_reader-blocks ps size byte_len rest known some_byte enough good =
      let wanted : min byte_len (size * length ps) ≡ length ps * size = grind (arith, enough) in
      let few : length ps ≤ length ps * size = grind (arith, some_byte) in
      rw (known, wanted)
        (blocks_lem panic ps (length ps * size + 1) size (length ps * size) 0 rest [] some_byte good
          (omega arith) (omega (arith, few)))
