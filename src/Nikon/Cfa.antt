-- ===== src/Nikon/Cfa.antt =====
-- src/nikon/diffiterator.rs: the differences, and the samples that they predict.
pub mod Codes
pub mod Diffs
pub mod Samples
mod Examples
use libopenraw.Prelude.{
  ℕ, zero, suc, ◌+◌, ◌-◌, ◌*◌, ◌/◌, ◌%◌, ◌^◌, Bool, true, false, not, ◌&&◌, List, [], ◌∷◌, ◌==◌,
  leb, ltb, if◌then◌else◌, Result, ok, err, panic, ◌>>=◌, ◌>>◌, require, index, update, shl, shr,
  bit_and, ℤ, pos, ◌+ℤ◌, ◌-ℤ◌, as_u16,
}
use libopenraw.BitSource.{BitReaderCrate}
use libopenraw.Nikon.Huffman.{HuffmanNode, decode}

-- The difference of a token: its `len` low bits and the shift `t >> 4`.
unfoldable pub diff_of : ℕ → ℕ → ℕ → ℤ
diff_of len shift bits =
    let d : ℕ = shl 32 (shl 32 bits 1 + 1) shift / 2 in
    if ltb 0 len && (d / 2 ^ (len - 1) % 2 == 0)
    then pos d -ℤ pos (2 ^ len - (if shift == 0 then 1 else 0))
    else pos d

module _ (c : BitReaderCrate) where
  -- `DiffIterator::get`; `len - shl` panics below 0.
  unfoldable pub next_diff : List HuffmanNode → c.State → Result (ℤ × c.State)
  next_diff table s = do
    (t, s1) ← decode c table s
    let len = bit_and t 15
    let shift = shr t 4
    require (leb shift len)
    (bits, s2) ← c.read 32 (len - shift) s1
    ok (diff_of len shift bits, s2)

pub record CfaIterator : Type 0 where
  pub columns : ℕ
  pub row : ℕ
  pub column : ℕ
  pub vpred : List (List ℕ)
  pub hpred : List ℕ

-- `CfaIterator::new`; the decoder's state is kept beside.
unfoldable pub new_cfa : ℕ → List (List ℕ) → CfaIterator
new_cfa columns init = record {
  columns = columns;
  row = 0;
  column = 0;
  vpred = init;
  hpred = 0x148 ∷ 0x148 ∷ [];
}

-- The sample, with the vertical predictors after it.
unfoldable pub predicted : CfaIterator → ℤ → Result (ℤ × List (List ℕ))
predicted it diff =
    if ltb it.column 2
    then (do
      line ← index it.vpred (it.row % 2)
      p ← index line it.column
      let v = pos p +ℤ diff
      line' ← update line it.column (as_u16 v)
      vpred' ← update it.vpred (it.row % 2) line'
      ok (v, vpred'))
    else (do p ← index it.hpred (it.column % 2); ok (pos p +ℤ diff, it.vpred))

unfoldable pub next_column : CfaIterator → CfaIterator
next_column it =
    if it.column + 1 == it.columns
    then record it { column = 0; row = it.row + 1 }
    else record it { column = it.column + 1 }

module _ (c : BitReaderCrate) (table : List HuffmanNode) where
  -- `CfaIterator::get`
  unfoldable pub next_sample : CfaIterator → c.State → Result (ℕ × CfaIterator × c.State)
  next_sample it s = do
    (diff, s') ← next_diff c table s
    (ret, vpred') ← predicted it diff
    hpred' ← update it.hpred (it.column % 2) (as_u16 ret)
    ok (as_u16 ret, next_column (record it { vpred = vpred'; hpred = hpred' }), s')
