-- ===== src/Nikon/Quantized.antt =====
-- src/nikon.rs: the loop of `decompress_nikon_quantized` over the samples of a picture. The curve, the
-- tree and the predictors come from `get_compression_curve`.
pub mod Picture
mod Examples
use libopenraw.Prelude.{
  ℕ, zero, suc, ◌+◌, ◌-◌, ◌*◌, List, replicate, Result, ok, ◌>>=◌, ◌>>◌, require, index, update,
  leb, ltb, if◌then◌else◌, bit_and, shl,
}
use libopenraw.BitSource.{BitReaderCrate}
use libopenraw.Nikon.Huffman.{HuffmanNode}
use libopenraw.Nikon.Cfa.{CfaIterator, new_cfa, next_sample}

-- What the picture keeps of a sample: `curve[t & 0x3fff] << (16 - bpc)`, in 16 bits. A shift by 16 or
-- more panics.
unfoldable pub shade : List ℕ → ℕ → ℕ → Result ℕ
shade curve bpc t = do
  p ← index curve (bit_and t 0x3fff)
  require (leb bpc 16)
  require (ltb (16 - bpc) 16)
  ok (shl 16 p (16 - bpc))

-- The last sample of a row is left out.
unfoldable pub store_sample : List ℕ → ℕ → ℕ → ℕ → ℕ → ℕ → List ℕ → Result (List ℕ)
store_sample curve bpc columns i j t picture =
    if ltb j columns
    then (do v ← shade curve bpc t; update picture (i * columns + j) v)
    else ok picture

module _ (c : BitReaderCrate) (table : List HuffmanNode) (curve : List ℕ) (bpc columns : ℕ) where
  unfoldable pub read_row :
      ℕ → ℕ → ℕ → CfaIterator → c.State → List ℕ → Result (List ℕ × CfaIterator × c.State)
  read_row zero i j it s picture = ok (picture, it, s)
  read_row (suc left) i j it s picture = do
    (t, it', s') ← next_sample c table it s
    picture' ← store_sample curve bpc columns i j t picture
    read_row left i (j + 1) it' s' picture'

  unfoldable pub read_rows : ℕ → ℕ → CfaIterator → c.State → List ℕ → Result (List ℕ)
  read_rows zero i it s picture = ok picture
  read_rows (suc left) i it s picture = do
    (picture', it', s') ← read_row (columns + 1) i 0 it s picture
    read_rows left (i + 1) it' s' picture'

module _ (c : BitReaderCrate) (table : List HuffmanNode) where
  -- `decompress_nikon_quantized`, once the curve is known. A picture with no columns panics.
  unfoldable pub decompress_quantized :
      List (List ℕ) → List ℕ → ℕ → ℕ → ℕ → List ℕ → Result (List ℕ)
  decompress_quantized vpred curve bpc rows raw_columns bytes = do
    require (leb 1 raw_columns)
    let columns = raw_columns - 1
    read_rows c table curve bpc columns rows 0 (new_cfa raw_columns vpred) (c.new bytes)
        (replicate (rows * columns) 0)
