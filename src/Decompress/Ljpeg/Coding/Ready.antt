-- ===== src/Decompress/Ljpeg/Coding/Ready.antt =====
-- A picture, the bits that send it, and the rows that the decoder works on.
use libopenraw.Prelude.{
  ℕ, zero, suc, ◌-◌, ◌^◌, ◌≤◌, ◌<◌, ◌≡◌, ◌≢◌, refl, sym, Bool, List, [], ◌++◌, ok, ◌>>=◌, pos,
  arith,
}
use libopenraw.Decompress.BitReader.{LJpegBitReader}
use libopenraw.Decompress.SlicedBuffer.{SlicedBuffer}
use libopenraw.Decompress.Ljpeg.Huffman.{HuffmanTable}
use libopenraw.Decompress.Ljpeg.Info.{DecompressInfo}
use libopenraw.Decompress.Ljpeg.Rows.{LJpeg, sample, predictor, checked_table_of, pm_put_row}
use libopenraw.Decompress.Ljpeg.Image.{Decoding, put_row}
use libopenraw.Decompress.Ljpeg.Coding.{IsSent}
use libopenraw.Decompress.Ljpeg.Coding.Columns.{columns_bits}
use libopenraw.Decompress.Ljpeg.Coding.Decoded.{Done}
use libopenraw.Decompress.Ljpeg.Coding.Output.{row_values, IsRowOf, sample-IsRowOf}

-- The bits of `left` rows, from `row` on, and their values.
abbrev pub rows_bits : (ℕ → ℕ → ℕ → List Bool) → ℕ → ℕ → ℕ → ℕ → List Bool
rows_bits B comps width zero row = []
rows_bits B comps width (suc left) row =
    columns_bits (B row) comps width 0 ++ rows_bits B comps width left (suc row)

abbrev pub rows_values : (ℕ → ℕ → ℕ → ℕ) → ℕ → ℕ → ℕ → ℕ → ℕ → List ℕ
rows_values P comps pt width zero row = []
rows_values P comps pt width (suc left) row =
    row_values (P row) comps pt width 0 ++ rows_values P comps pt width left (suc row)

-- The rows of the decoder behind a row: the current one becomes the previous one.
abbrev pub swapped : LJpeg → List (List (List ℕ)) → LJpeg
swapped lj rows = record lj { mcu_row = rows; cur_row = lj.prev_row; prev_row = lj.cur_row }

module _ (m : ℕ) (rest : List ℕ) (dc : DecompressInfo) (T : ℕ → HuffmanTable) (P : ℕ → ℕ → ℕ → ℕ)
    (B : ℕ → ℕ → ℕ → List Bool) where
  -- The rows that the decoder works on: one holds what is above, and there is room for the next.
  pub record IsReady (lj : LJpeg) (U : ℕ → ℕ → ℕ) : Type 0 where
    pub apart : lj.cur_row ≢ lj.prev_row
    pub above :
        (c i : ℕ)
        → c < dc.image_width
        → i < dc.comps_in_scan
        → sample lj.mcu_row lj.prev_row c i ≡ ok (U c i)
    pub here :
        (c i : ℕ)
        → c < dc.image_width
        → i < dc.comps_in_scan
        → (v : ℕ) × (sample lj.mcu_row lj.cur_row c i ≡ ok v)

  pub start_of :
      (lj : LJpeg) (U X : ℕ → ℕ → ℕ) (b : ℕ → ℕ → List Bool)
      → IsReady lj U
      → Done m rest dc lj T U X b 0 0 lj.mcu_row
  start_of lj U X b ready = record {
    above = ready.above;
    here = ready.here;
    done = λ c i e h k. absurd (omega arith);
    now = λ i e k. absurd (omega arith);
  }

  pub swapped-IsReady :
      (lj : LJpeg) (U X : ℕ → ℕ → ℕ) (b : ℕ → ℕ → List Bool) (rows : List (List (List ℕ)))
      → lj.cur_row ≢ lj.prev_row
      → Done m rest dc lj T U X b dc.image_width 0 rows
      → IsReady (swapped lj rows) X
  swapped-IsReady lj U X b rows apart done = record {
    apart = λ e. apart (sym e);
    above = λ c i h k. done.done c i h h k;
    here = λ c i h k. (U c i, done.above c i h k);
  }

  -- The state of the decoder with an output.
  abbrev pub decoding : LJpeg → LJpegBitReader → SlicedBuffer ℕ → Decoding
  decoding lj r out = record { dc = dc; row = (lj, r); output = out }

  -- A finished row is put out.
  pub put_row_lem :
      (lj : LJpeg) (U X : ℕ → ℕ → ℕ) (b : ℕ → ℕ → List Bool) (rows : List (List (List ℕ)))
      (r : LJpegBitReader)
      → 1 ≤ dc.image_width
      → 1 ≤ dc.comps_in_scan
      → Done m rest dc lj T U X b dc.image_width 0 rows
      → (of : IsRowOf rows lj.cur_row dc.image_width dc.comps_in_scan X) × ((out : SlicedBuffer ℕ)
          → put_row (decoding (record lj { mcu_row = rows }) r out) ≡ (
              pm_put_row of.buf dc.comps_in_scan dc.image_width dc.pt out >>= λ o.
              ok (decoding (swapped lj rows) r o)))
  unfolding put_row
  put_row_lem lj U X b rows r wide some_comps done =
      let of =
        sample-IsRowOf rows lj.cur_row dc.image_width dc.comps_in_scan X wide some_comps
          (λ c i h k. done.done c i h h k) in
      (of, λ out. rw (of.at) refl)

  -- The bits send every sample of the picture, below a row `U` that is not used.
  pub record IsPicture : Type 0 where
    pub wide : 1 ≤ dc.image_width
    pub high : 1 ≤ dc.image_height
    pub some_comps : 1 ≤ dc.comps_in_scan
    pub no_restarts : dc.restart_in_rows ≡ 0
    pub precise : dc.pt < dc.data_precision
    pub tables : (i : ℕ) → i < dc.comps_in_scan → checked_table_of dc i ≡ ok (T i)
    pub first_start :
        (i : ℕ)
        → i < dc.comps_in_scan
        → IsSent (T i) (pos (2 ^ (dc.data_precision - dc.pt - 1))) (P 0 0 i) (B 0 0 i)
    pub first_row :
        (c i : ℕ)
        → 1 ≤ c
        → c < dc.image_width
        → i < dc.comps_in_scan
        → IsSent (T i) (pos (P 0 (c - 1) i)) (P 0 c i) (B 0 c i)
    pub row_starts :
        (n i : ℕ)
        → suc n < dc.image_height
        → i < dc.comps_in_scan
        → IsSent (T i) (pos (P n 0 i)) (P (suc n) 0 i) (B (suc n) 0 i)
    pub rows :
        (n c i : ℕ)
        → suc n < dc.image_height
        → 1 ≤ c
        → c < dc.image_width
        → i < dc.comps_in_scan
        → IsSent
            (T i)
            (predictor dc.ss (P (suc n) (c - 1) i) (P n c i) (P n (c - 1) i))
            (P (suc n) c i)
            (B (suc n) c i)
