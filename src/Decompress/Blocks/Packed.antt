-- ===== src/Decompress/Blocks/Packed.antt =====
-- The rows of a picture in Nikon's packed 12 bits are read back from their blocks.
use libopenraw.Prelude.{
  ℕ, ◌+◌, ◌*◌, ◌/◌, ◌^◌, ◌≤◌, ◌<◌, ◌≡◌, inr, refl, ap, List, [], ◌∷◌, ◌++◌, append-nil, All, length,
  ok, lt→ltb, map, length-map, subst, arith,
}
use libopenraw.Container.{Endian}
use libopenraw.Tiff.{nikon_pack}
use libopenraw.BitSource.{BitReaderCrate}
use libopenraw.Decompress.Unpack.{be_pad}
use libopenraw.Decompress.Unpack.Layout.{
  be_bytes, Group, IsGroup, group_samples, pack_groups, length-pack_groups,
}
use libopenraw.Decompress.Unpack.RoundTrip.{be_unpack-pack}
use libopenraw.Decompress.Blocks.{
  as_u32, is_padded, block_size, unpack_12, unpack_block, unpack_from_reader,
}
use libopenraw.Decompress.Blocks.Loop.{IsBlockOf, blocks_of, rows_of, unpack_from_reader-blocks}

-- A row of groups of ten samples, and its block, which has one byte of fill behind each group.
abbrev pub packed_row : List Group → List ℕ × List ℕ
packed_row gs = (pack_groups be_bytes gs, group_samples gs)

-- As many groups as a tenth of the width.
abbrev pub IsPackedRow : ℕ → List Group → Type 0
IsPackedRow tenth gs = (length gs ≡ tenth) × All (IsGroup 1) gs

module _ (c : BitReaderCrate) (tenth : ℕ) (endian : Endian) where
  IsPackedRow-IsBlockOf :
      (gs : List Group)
      → IsPackedRow tenth gs
      → IsBlockOf c (10 * tenth) 12 nikon_pack endian (16 * tenth) (packed_row gs)
  unfolding unpack_block unpack_12 be_pad
  IsPackedRow-IsBlockOf gs h = record {
    whole = omega (arith, length-pack_groups be_bytes 1 gs h.1, h.0);
    count = 10 * length gs + 2 * 0;
    unpacks = unpacks_lem;
  }
    where
      unpacks_lem :
          (out_data : List ℕ)
          → unpack_block c (10 * tenth) 12 nikon_pack endian (pack_groups be_bytes gs) out_data
            ≡ ok (10 * length gs + 2 * 0, out_data ++ group_samples gs)
      unpacks_lem out_data =
          rw (append-nil (pack_groups be_bytes gs), append-nil (group_samples gs)) at
            (be_unpack-pack nikon_pack gs [] out_data h.1 tt (omega arith) (inr (refl, refl)))

  All-IsPackedRow :
      (rows : List (List Group))
      → All (IsPackedRow tenth) rows
      → All (IsBlockOf c (10 * tenth) 12 nikon_pack endian (16 * tenth)) (map packed_row rows)
  All-IsPackedRow [] h = tt
  All-IsPackedRow (gs ∷ rows) h = (IsPackedRow-IsBlockOf gs h.0, All-IsPackedRow rows h.1)

  packed_size : 16 * tenth < 2 ^ 32 → block_size (10 * tenth) 12 nikon_pack ≡ ok (16 * tenth)
  unfolding block_size is_padded as_u32
  packed_size small =
      let size : 10 * tenth / 2 * 3 + 10 * tenth / 10 ≡ 16 * tenth = omega arith in
      rw (size, lt→ltb (16 * tenth) (2 ^ 32) small) refl

  -- For `NikonPack` and a width of some tens of samples, whose block has a size that is a u32: a
  -- reader that starts with the blocks of the rows gives the samples of the rows, in order.
  pub unpack_from_reader-packed_row :
      (rows : List (List Group)) (byte_len : ℕ) (rest : List ℕ)
      → 1 ≤ tenth
      → 16 * tenth < 2 ^ 32
      → 16 * tenth * length rows ≤ byte_len
      → All (IsPackedRow tenth) rows
      → unpack_from_reader c
          (10 * tenth)
          12
          nikon_pack
          endian
          (blocks_of (map packed_row rows) ++ rest)
          (length rows)
          byte_len
        ≡ ok (rows_of (map packed_row rows))
  unpack_from_reader-packed_row rows byte_len rest some_sample small enough h =
      subst
        (λ n.
          unpack_from_reader c (10 * tenth) 12 nikon_pack endian
            (blocks_of (map packed_row rows) ++ rest) n byte_len
          ≡ ok (rows_of (map packed_row rows)))
        (length-map packed_row rows)
        (unpack_from_reader-blocks c (10 * tenth) 12 nikon_pack endian (map packed_row rows)
          (16 * tenth) byte_len rest (packed_size small) (omega (arith, some_sample))
          (omega (arith, enough, ap (λ n. 16 * tenth * n) (length-map packed_row rows)))
          (All-IsPackedRow rows h))
