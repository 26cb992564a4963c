-- ===== src/Decompress/Blocks/Rows.antt =====
-- The rows of a picture of 10, 12 or 14 bits are read back from their blocks.
use libopenraw.Prelude.{
  ℕ, suc, ◌+◌, ◌*◌, ◌/◌, ◌^◌, ◌≤◌, ◌<◌, ◌≡◌, ◌⊎◌, inl, inr, refl, ap, ◌∙◌, subst, Bool, List, [],
  ◌∷◌, ◌++◌, append_assoc, append-nil, All, length, ok, lt→ltb, ge→ltb, arith,
}
use libopenraw.Container.{Endian}
use libopenraw.Tiff.{Compression}
use libopenraw.BitSource.{BitReaderCrate, IsBitReader, low_bits, bytes_bits}
use libopenraw.BitSource.Fields.{read-HasRead}
use libopenraw.Decompress.Blocks.{
  bento_loop, unpack_bento16, as_u32, block_size, unpack_block, unpack_from_reader,
}
use libopenraw.Decompress.Blocks.Loop.{IsBlockOf, blocks_of, rows_of, unpack_from_reader-blocks}

-- The bits of some samples of `n` bits.
abbrev pub row_bits : ℕ → List ℕ → List Bool
row_bits n [] = []
row_bits n (x ∷ xs) = low_bits n x ++ row_bits n xs

-- A block of `n`-bit samples, as long as a row of the width says.
pub record IsBento (width n size : ℕ) (p : List ℕ × List ℕ) : Type 0 where
  pub whole : length p.0 ≡ size
  pub wide : length p.1 ≡ width
  pub fits : All (λ x. x < 2 ^ n) p.1
  pub rest : List Bool
  pub bits : bytes_bits p.0 ≡ row_bits n p.1 ++ rest

module _ (c : BitReaderCrate) (laws : IsBitReader c) where
  bento_lem :
      (n : ℕ) (xs : List ℕ) (s : c.State) (rest : List Bool) (out_data : List ℕ) (written : ℕ)
      → n ≤ 16
      → All (λ x. x < 2 ^ n) xs
      → laws.bits s ≡ row_bits n xs ++ rest
      → bento_loop c n (length xs) s out_data written ≡ ok (written + length xs, out_data ++ xs)
  unfolding bento_loop
  bento_lem n [] s rest out_data written small fits e = ground (arith, append-nil out_data)
  bento_lem n (x ∷ xs) s rest out_data written small fits e =
      let first =
        read-HasRead c laws 16 n x s (row_bits n xs ++ rest) small fits.0
          (e ∙ append_assoc (low_bits n x) (row_bits n xs) rest) in
      let next : written + 1 + length xs ≡ written + suc (length xs) = omega arith in
      rw first.returns (
        bento_lem n xs first.after rest (out_data ++ x ∷ []) (written + 1) small fits.1 first.left
        ∙ ap ok (rw (next, append_assoc out_data (x ∷ []) xs) refl))

  -- With a reader that does what the crate documents: samples of `n` bits, 16 at most, are read back
  -- behind what `out_data` held, where the input starts with their bits.
  pub unpack_bento16-row_bits :
      (n : ℕ) (xs input : List ℕ) (rest : List Bool) (out_data : List ℕ)
      → n ≤ 16
      → All (λ x. x < 2 ^ n) xs
      → bytes_bits input ≡ row_bits n xs ++ rest
      → unpack_bento16 c input n (length xs) out_data ≡ ok (length xs, out_data ++ xs)
  unfolding unpack_bento16
  unpack_bento16-row_bits n xs input rest out_data small fits e = rw (ge→ltb 16 n small) (
      bento_lem n xs (c.new input) rest out_data 0 small fits (laws.of_new input ∙ e)
      ∙ ap (λ k. ok (k, out_data ++ xs)) (omega arith))

  bento_block :
      (width n : ℕ) (compression : Compression) (endian : Endian) (block out_data : List ℕ)
      → (n ≡ 10) ⊎ (n ≡ 14)
      → unpack_block c width n compression endian block out_data
        ≡ unpack_bento16 c block n width out_data
  unfolding unpack_block
  bento_block width n compression endian block out_data (inl e) = rw e refl
  bento_block width n compression endian block out_data (inr e) = rw e refl

  IsBento-IsBlockOf :
      (width n size : ℕ) (compression : Compression) (endian : Endian) (p : List ℕ × List ℕ)
      → (n ≡ 10) ⊎ (n ≡ 14)
      → IsBento width n size p
      → IsBlockOf c width n compression endian size p
  IsBento-IsBlockOf width n size compression endian p depth b = record {
    whole = b.whole;
    count = width;
    unpacks = λ out_data.
        bento_block width n compression endian p.0 out_data depth
        ∙ subst (λ k. unpack_bento16 c p.0 n k out_data ≡ ok (k, out_data ++ p.1)) b.wide
            (unpack_bento16-row_bits n p.1 p.0 b.rest out_data (few depth) b.fits b.bits);
  }
    where
      few : (n ≡ 10) ⊎ (n ≡ 14) → n ≤ 16
      few (inl e) = omega (arith, e)
      few (inr e) = omega (arith, e)

  bento_size :
      (width n : ℕ) (compression : Compression)
      → (n ≡ 10) ⊎ (n ≡ 14)
      → width / 4 * (n / 2) < 2 ^ 32
      → block_size width n compression ≡ ok (width / 4 * (n / 2))
  unfolding block_size as_u32
  bento_size width n compression (inl e) small =
      let fits = rw e at small in rw (e, lt→ltb (width / 4 * 5) (2 ^ 32) fits) refl
  bento_size width n compression (inr e) small =
      let fits = rw e at small in rw (e, lt→ltb (width / 4 * 7) (2 ^ 32) fits) refl

  bento_some : (width n : ℕ) → (n ≡ 10) ⊎ (n ≡ 14) → 4 ≤ width → 1 ≤ width / 4 * (n / 2)
  bento_some width n (inl e) wide = rw e (omega (arith, wide))
  bento_some width n (inr e) wide = rw e (omega (arith, wide))

  All-IsBento :
      (width n size : ℕ) (compression : Compression) (endian : Endian) (ps : List (List ℕ × List ℕ))
      → (n ≡ 10) ⊎ (n ≡ 14)
      → All (IsBento width n size) ps
      → All (IsBlockOf c width n compression endian size) ps
  All-IsBento width n size compression endian [] depth h = tt
  All-IsBento width n size compression endian (p ∷ ps) depth h = (
    IsBento-IsBlockOf width n size compression endian p depth h.0,
    All-IsBento width n size compression endian ps depth h.1,
  )

  -- With a reader that does what the crate documents, for 10 or 14 bits and rows of at least 4 samples
  -- whose block has a size that is a u32: a reader that starts with the blocks of the rows, each with
  -- the bits of its samples in order, gives the rows, whatever the compression and the byte order are.
  pub unpack_from_reader-bento :
      (width n byte_len : ℕ) (compression : Compression) (endian : Endian)
      (ps : List (List ℕ × List ℕ)) (rest : List ℕ)
      → (n ≡ 10) ⊎ (n ≡ 14)
      → 4 ≤ width
      → width / 4 * (n / 2) < 2 ^ 32
      → width / 4 * (n / 2) * length ps ≤ byte_len
      → All (IsBento width n (width / 4 * (n / 2))) ps
      → unpack_from_reader c width n compression endian (blocks_of ps ++ rest) (length ps) byte_len
        ≡ ok (rows_of ps)
  unpack_from_reader-bento width n byte_len compression endian ps rest depth wide small enough h =
      unpack_from_reader-blocks c width n compression endian ps (width / 4 * (n / 2)) byte_len rest
        (bento_size width n compression depth small) (bento_some width n depth wide) enough
        (All-IsBento width n (width / 4 * (n / 2)) compression endian ps depth h)
