-- ===== src/Decompress/Ljpeg/Coding/Decoded.antt =====
-- A row is decoded from its bits.
use libopenraw.Prelude.{
  ℕ, suc, ◌+◌, ◌-◌, ◌^◌, ◌≤◌, ◌<◌, ◌≡◌, ◌≢◌, inl, inr, refl, sym, subst, Bool, true, Bool-cases,
  ◌==◌, if◌then◌else◌, List, ◌++◌, append_assoc, le→leb, ge→ltb, Result, ok, ◌>>=◌, >>=-ok_inv,
  reject_if, index, leb, length, jpeg_format, ℤ, pos, arith,
}
use libopenraw.Decompress.BitReader.{LJpegBitReader}
use libopenraw.Decompress.BitReader.Stream.{IsBefore}
use libopenraw.Decompress.Ljpeg.Huffman.{HuffmanTable}
use libopenraw.Decompress.Ljpeg.Info.{DecompressInfo}
use libopenraw.Decompress.Ljpeg.Rows.{
  LJpeg, Row, predictor, quick_predict, table_of, checked_table_of, first_predictor, left_predictor,
  upper_predictor, first_row_sample, first_row_column, decode_first_row, row_start, row_column,
  decode_row, decode_sample,
}
use libopenraw.Decompress.Ljpeg.Coding.{IsSent, decode_sample-IsDecoded}
use libopenraw.Decompress.Ljpeg.Coding.Columns.{
  column_bits, columns_bits, IsDone, IsOn, IsDecoded-IsOn, each_comp-IsOn, IsDone-suc,
  each_col-IsOn,
}

-- The test of the selector only refuses.
pub table_of_checked :
    (dc : DecompressInfo) (i : ℕ) {t : HuffmanTable}
    → checked_table_of dc i ≡ ok t
    → table_of dc i ≡ ok t
unfolding checked_table_of
table_of_checked dc i e =
    let (ci, _, e1) = >>=-ok_inv (index dc.mcu_membership i) _ e in
    let (compptr, _, e2) = >>=-ok_inv (index dc.cur_comp_info ci) _ e1 in
    let (_, _, e3) =
      >>=-ok_inv (reject_if (leb (length dc.dc_huff_tbl_ptrs) compptr.dc_tbl_no) jpeg_format) _
        e2 in
    e3

module _ (m : ℕ) (rest : List ℕ) (dc : DecompressInfo) (lj : LJpeg) (T : ℕ → HuffmanTable)
    (U X : ℕ → ℕ → ℕ) (B : ℕ → ℕ → List Bool) where
  abbrev pub Done : ℕ → ℕ → List (List (List ℕ)) → Type 0
  Done = IsDone m rest lj U X B dc.image_width dc.comps_in_scan

  abbrev pub On : ℕ → ℕ → List Bool → Result Row → Type 0
  On = IsOn m rest lj U X B dc.image_width dc.comps_in_scan

  -- The predictor of a sample behind the first column.
  quick_predict_lem :
      (c i : ℕ) (rows : List (List (List ℕ)))
      → 1 ≤ c
      → c < dc.image_width
      → i < dc.comps_in_scan
      → Done c i rows
      → quick_predict (record lj { mcu_row = rows }) c i dc.ss
        ≡ ok (predictor dc.ss (X (c - 1) i) (U c i) (U (c - 1) i))
  unfolding quick_predict
  quick_predict_lem c i rows low inside comp before =
      rw
        (
          le→leb 1 c low,
          before.above c i inside comp,
          before.done (c - 1) i (omega (arith, low)) (omega (arith, inside)) comp,
          before.above (c - 1) i (omega (arith, inside)) comp,
        )
        refl

  -- A sample of column `c` where `predict` gives `p`.
  step_lem :
      (t : HuffmanTable) (predict : LJpeg → Result ℤ) (p : ℤ) (c i : ℕ)
      (rows : List (List (List ℕ))) (r : LJpegBitReader) (more : List Bool)
      → 1 ≤ m
      → lj.cur_row ≢ lj.prev_row
      → c < dc.image_width
      → i < dc.comps_in_scan
      → predict (record lj { mcu_row = rows }) ≡ ok p
      → IsSent t p (X c i) (B c i)
      → Done c i rows
      → IsBefore m rest (B c i ++ more) r
      → On c (i + 1) more (decode_sample t predict c i (record lj { mcu_row = rows }, r))
  step_lem t predict p c i rows r more marker apart inside comp predicted sent before bits =
      let (v, there) = before.here c i inside comp in
      IsDecoded-IsOn m rest lj U X B dc.image_width dc.comps_in_scan c i rows more
        (decode_sample t predict c i (record lj { mcu_row = rows }, r)) apart comp inside before
        (decode_sample-IsDecoded m rest t predict p (record lj { mcu_row = rows }) c i (X c i) v
          (B c i) more r marker predicted there sent bits)

  -- Where the table of each component is `T`, the bits of every sample send it for the prediction from
  -- its neighbours by the selection value of the scan, in the first column from the sample above, and
  -- the reader stands before the bits of all samples, `decode_row` writes the samples into the current
  -- row, keeps the one above, and stands behind the bits.
  pub decode_row-IsOn :
      (r : LJpegBitReader) (more : List Bool)
      → 1 ≤ m
      → lj.cur_row ≢ lj.prev_row
      → 1 ≤ dc.image_width
      → ((i : ℕ) → i < dc.comps_in_scan → checked_table_of dc i ≡ ok (T i))
      → ((i : ℕ) → i < dc.comps_in_scan → IsSent (T i) (pos (U 0 i)) (X 0 i) (B 0 i))
      → ((c i : ℕ)
          → 1 ≤ c
          → c < dc.image_width
          → i < dc.comps_in_scan
          → IsSent (T i) (predictor dc.ss (X (c - 1) i) (U c i) (U (c - 1) i)) (X c i) (B c i))
      → Done 0 0 lj.mcu_row
      → IsBefore m rest (columns_bits B dc.comps_in_scan dc.image_width 0 ++ more) r
      → On dc.image_width 0 more (decode_row dc (lj, r))
  unfolding decode_row row_start row_column upper_predictor
  decode_row-IsOn r more marker apart wide tables starts sends before bits =
      let comps = dc.comps_in_scan in
      let left = dc.image_width - 1 in
      let width : suc left ≡ dc.image_width = omega (arith, wide) in
      let others : List Bool = columns_bits B comps left (0 + 1) in
      let bits' =
        subst (λ w. IsBefore m rest (columns_bits B comps w 0 ++ more) r) (sym width) bits in
      let first =
        each_comp-IsOn m rest lj U X B dc.image_width comps 0 (row_start dc) comps 0 lj.mcu_row r
          (others ++ more)
          (λ i rows r more inside before bits. rw (table_of_checked dc i (tables i inside)) (
            step_lem (T i) (upper_predictor i) (pos (U 0 i)) 0 i rows r more marker apart wide
              inside (rw (before.above 0 i wide inside) refl) (starts i inside) before bits))
          (omega arith) before
          (subst (λ b. IsBefore m rest b r) (append_assoc (column_bits B 0 comps 0) others more)
            bits') in
      rw first.returns (
        each_col-IsOn m rest lj U X B dc.image_width comps (row_column dc) left 1 first.rows
          first.reader more
          (λ c rows r more low inside before bits.
            each_comp-IsOn m rest lj U X B dc.image_width comps c
              (λ comp s. checked_table_of dc comp >>= λ dctbl.
                decode_sample dctbl (λ lj. quick_predict lj c comp dc.ss) c comp s)
              comps 0 rows r more
              (λ i rows r more comp before bits. rw (tables i comp) (
                step_lem (T i) (λ lj. quick_predict lj c i dc.ss)
                  (predictor dc.ss (X (c - 1) i) (U c i) (U (c - 1) i)) c i rows r more marker apart
                  inside comp (quick_predict_lem c i rows low inside comp before)
                  (sends c i low inside comp) before bits))
              (omega arith) before bits)
          (omega (arith, width))
          (IsDone-suc m rest lj U X B dc.image_width comps 0 first.rows first.reached) first.before)

  -- The first row: what it returns, with the count of the rows to the next restart.
  pub record IsFirstRow (more : List Bool) (step : Result (DecompressInfo × Row)) : Type 0 where
    pub row : Row
    pub returns :
        step
        ≡ ok (
          if dc.restart_in_rows == 0
              then dc
              else record dc { restart_rows_to_go = dc.restart_rows_to_go - 1 },
          row,
        )
    pub on : On dc.image_width 0 more (ok row)

  -- In the first row the first sample of a component is predicted by half the range of a sample, and
  -- the others by their left neighbours. From their bits `decode_first_row` writes the samples into the
  -- current row, keeps the other one, and stands behind the bits; it counts the row where there are
  -- restarts.
  pub decode_first_row-IsFirstRow :
      (r : LJpegBitReader) (more : List Bool)
      → 1 ≤ m
      → lj.cur_row ≢ lj.prev_row
      → 1 ≤ dc.image_width
      → dc.pt < dc.data_precision
      → (1 ≤ dc.restart_in_rows → 1 ≤ dc.restart_rows_to_go)
      → ((i : ℕ) → i < dc.comps_in_scan → table_of dc i ≡ ok (T i))
      → ((i : ℕ)
          → i < dc.comps_in_scan
          → IsSent (T i) (pos (2 ^ (dc.data_precision - dc.pt - 1))) (X 0 i) (B 0 i))
      → ((c i : ℕ)
          → 1 ≤ c
          → c < dc.image_width
          → i < dc.comps_in_scan
          → IsSent (T i) (pos (X (c - 1) i)) (X c i) (B c i))
      → Done 0 0 lj.mcu_row
      → IsBefore m rest (columns_bits B dc.comps_in_scan dc.image_width 0 ++ more) r
      → IsFirstRow more (decode_first_row (dc, (lj, r)))
  unfolding decode_first_row first_row_sample first_row_column first_predictor left_predictor
  decode_first_row-IsFirstRow r more marker apart wide precise counted tables starts sends before
        bits =
      let comps = dc.comps_in_scan in
      let left = dc.image_width - 1 in
      let width : suc left ≡ dc.image_width = omega (arith, wide) in
      let others : List Bool = columns_bits B comps left (0 + 1) in
      let bits' =
        subst (λ w. IsBefore m rest (columns_bits B comps w 0 ++ more) r) (sym width) bits in
      let first =
        each_comp-IsOn m rest lj U X B dc.image_width comps 0 (first_row_sample dc) comps 0
          lj.mcu_row r (others ++ more)
          (λ i rows r more inside before bits. rw (tables i inside) (
            step_lem (T i) (first_predictor dc.data_precision dc.pt)
              (pos (2 ^ (dc.data_precision - dc.pt - 1))) 0 i rows r more marker apart wide inside
              (rw (ge→ltb dc.data_precision (dc.pt + 1) (omega (arith, precise))) refl)
              (starts i inside) before bits))
          (omega arith) before
          (subst (λ b. IsBefore m rest b r) (append_assoc (column_bits B 0 comps 0) others more)
            bits') in
      let all =
        each_col-IsOn m rest lj U X B dc.image_width comps (first_row_column dc) left 1 first.rows
          first.reader more
          (λ c rows r more low inside before bits.
            each_comp-IsOn m rest lj U X B dc.image_width comps c
              (λ comp s.
                table_of dc comp >>= λ dctbl. decode_sample dctbl (left_predictor c comp) c comp s)
              comps 0 rows r more
              (λ i rows r more comp before bits. rw (tables i comp) (
                step_lem (T i) (left_predictor c i) (pos (X (c - 1) i)) c i rows r more marker apart
                  inside comp
                  (rw (before.done (c - 1) i (omega (arith, low)) (omega (arith, inside)) comp)
                    refl)
                  (sends c i low inside comp) before bits))
              (omega arith) before bits)
          (omega (arith, width))
          (IsDone-suc m rest lj U X B dc.image_width comps 0 first.rows first.reached)
          first.before in
      rw (first.returns, all.returns)
        (elim (Bool-cases (dc.restart_in_rows == 0)) [
          | inl e ↦ record {
            row = (record lj { mcu_row = all.rows }, all.reader);
            returns = rw e refl;
            on = record {
              rows = all.rows;
              reader = all.reader;
              returns = refl;
              reached = all.reached;
              before = all.before;
            };
          }
          | inr e ↦
              let to_go : leb 1 dc.restart_rows_to_go ≡ true =
                le→leb 1 dc.restart_rows_to_go (counted (ground (arith, e))) in
              record {
                row = (record lj { mcu_row = all.rows }, all.reader);
                returns = rw (e, to_go) refl;
                on = record {
                  rows = all.rows;
                  reader = all.reader;
                  returns = refl;
                  reached = all.reached;
                  before = all.before;
                };
              }
        ])
