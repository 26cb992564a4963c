-- ===== src/Decompress/Ljpeg/Coding.antt =====
-- How a row is coded, and that the samples of a row are decoded from their bits.
pub mod Columns
pub mod Decoded
pub mod Output
pub mod Ready
pub mod Picture
mod Examples
use libopenraw.Prelude.{
  ℕ, zero, suc, ◌+◌, ◌≤◌, ◌<◌, ◌≡◌, ◌≢◌, ◌⊎◌, refl, sym, subst, ap, ◌∙◌, Bool, List, ◌++◌,
  append_assoc, Result, ok, ◌>>=◌, ℤ, pos, ◌+ℤ◌, as_u16, arith,
}
use libopenraw.BitSource.{low_bits}
use libopenraw.Decompress.BitReader.{LJpegBitReader}
use libopenraw.Decompress.BitReader.Stream.{IsBefore, HasBits}
use libopenraw.Decompress.Ljpeg.Huffman.{HuffmanTable, decode_difference}
use libopenraw.Decompress.Ljpeg.Codes.{Codes}
use libopenraw.Decompress.Ljpeg.Codes.Decoded.{decode_difference-sent_bits, decode_difference_zero}
use libopenraw.Decompress.Ljpeg.Signs.{sent_bits, IsOfSize}
use libopenraw.Decompress.Ljpeg.Rows.{LJpeg, Row, sample, set_sample, decode_sample}
use libopenraw.Decompress.Ljpeg.Samples.{set_sample-IsWritten}

-- The bits that send the sample `x` where `p` predicts it: the code of the size of a difference, and
-- the difference.
pub data IsSent (t : HuffmanTable) (p : ℤ) (x : ℕ) : List Bool → Type 0 where
  equal :
      {bits : List Bool} (code : List Bool)
      → Codes t 0 code
      → as_u16 (pos 0 +ℤ p) ≡ x
      → bits ≡ code
      → IsSent t p x bits
  differing :
      {bits : List Bool} (d : ℤ) (size : ℕ) (code : List Bool)
      → Codes t size code
      → 1 ≤ size
      → size ≤ 16
      → IsOfSize d size
      → as_u16 (d +ℤ p) ≡ x
      → bits ≡ code ++ low_bits size (sent_bits d size)
      → IsSent t p x bits

module _ (m : ℕ) (rest : List ℕ) where
  -- The difference that was read gives the sample.
  record HasDifference (p : ℤ) (x : ℕ) (more : List Bool) (step : Result (ℤ × LJpegBitReader))
      : Type 0 where
    d : ℤ
    read : HasBits m rest d more step
    gives : as_u16 (d +ℤ p) ≡ x

  decode_difference-HasDifference :
      (t : HuffmanTable) (p : ℤ) (x : ℕ) (bits more : List Bool) (r : LJpegBitReader)
      → 1 ≤ m
      → IsSent t p x bits
      → IsBefore m rest (bits ++ more) r
      → HasDifference p x more (decode_difference t r)
  decode_difference-HasDifference t p x bits more r marker (equal code coded gives is) before =
      record {
        d = pos 0;
        read =
            decode_difference_zero m rest t code more r marker coded
              (subst (λ b. IsBefore m rest (b ++ more) r) is before);
        gives = gives;
      }
  decode_difference-HasDifference t p x bits more r marker
        (differing d size code coded low few fits gives is) before =
      record {
        d = d;
        read = decode_difference-sent_bits m rest t d size code more r marker coded low few fits (
            subst (λ b. IsBefore m rest b r)
              (ap (λ b. b ++ more) is ∙ append_assoc code (low_bits size (sent_bits d size)) more)
              before);
        gives = gives;
      }

  -- A sample was decoded: it was written, and the reader stands behind its bits.
  pub record IsDecoded (lj : LJpeg) (col comp x : ℕ) (more : List Bool) (step : Result Row)
      : Type 0 where
    pub rows : List (List (List ℕ))
    pub reader : LJpegBitReader
    pub returns : step ≡ ok (record lj { mcu_row = rows }, reader)
    pub before : IsBefore m rest more reader
    pub written : sample rows lj.cur_row col comp ≡ ok x
    pub others :
        (r c i : ℕ)
        → (r ≢ lj.cur_row) ⊎ (c ≢ col) ⊎ (i ≢ comp)
        → sample rows r c i ≡ sample lj.mcu_row r c i

  pub decode_sample-IsDecoded :
      (t : HuffmanTable) (predict : LJpeg → Result ℤ) (p : ℤ) (lj : LJpeg) (col comp x v : ℕ)
      (bits more : List Bool) (r : LJpegBitReader)
      → 1 ≤ m
      → predict lj ≡ ok p
      → sample lj.mcu_row lj.cur_row col comp ≡ ok v
      → IsSent t p x bits
      → IsBefore m rest (bits ++ more) r
      → IsDecoded lj col comp x more (decode_sample t predict col comp (lj, r))
  unfolding decode_sample
  decode_sample-IsDecoded t predict p lj col comp x v bits more r marker predicted there sent
        before =
      let h = decode_difference-HasDifference t p x bits more r marker sent before in
      let w = set_sample-IsWritten lj.mcu_row lj.cur_row col comp x there in
      record {
        rows = w.after;
        reader = h.read.after;
        returns = rw (h.read.returns, predicted, h.gives, w.returns) refl;
        before = h.read.before;
        written = w.written;
        others = w.others;
      }
