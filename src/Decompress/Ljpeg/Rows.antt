-- ===== src/Decompress/Ljpeg/Rows.antt =====
-- src/decompress/ljpeg.rs: the rows of the picture: prediction, the first row, the other rows, and
-- their output.
use libopenraw.Prelude.{
  ℕ, zero, suc, ◌+◌, ◌-◌, ◌^◌, Bool, false, not, Option, none, some, List, ◌==◌, leb, ltb,
  if◌then◌else◌, length, map, take, drop, Result, ok, err, jpeg_format, ◌>>=◌, ◌>>◌, reject_if,
  require, index, update, bit_and, shl, ℤ, pos, ◌+ℤ◌, ◌-ℤ◌, half, as_u16,
}
use libopenraw.Decompress.BitReader.{LJpegBitReader, discard}
use libopenraw.Decompress.SlicedBuffer.{SlicedBuffer, extend}
use libopenraw.Decompress.Ljpeg.Markers.{m_rst0}
use libopenraw.Decompress.Ljpeg.Huffman.{HuffmanTable, decode_difference}
use libopenraw.Decompress.Ljpeg.Info.{DecompressInfo, scan_marker}

abbrev pub Mcu : Type 0
Mcu = List ℕ

pub record LJpeg : Type 0 where
  pub slices : Option (List ℕ)
  pub is_raw : Bool
  pub cur_row : ℕ
  pub prev_row : ℕ
  pub mcu_row : List (List Mcu)

-- `rows[row][col][comp]`
unfoldable pub sample : List (List Mcu) → ℕ → ℕ → ℕ → Result ℕ
sample rows row col comp = do buf ← index rows row; mcu ← index buf col; index mcu comp

-- `rows[row][col][comp] = v`
unfoldable pub set_sample : List (List Mcu) → ℕ → ℕ → ℕ → ℕ → Result (List (List Mcu))
set_sample rows row col comp v = do
  buf ← index rows row
  mcu ← index buf col
  mcu' ← update mcu comp v
  buf' ← update buf col mcu'
  update rows row buf'

-- The predictor of each selection value.
unfoldable pub predictor : ℕ → ℕ → ℕ → ℕ → ℤ
predictor psv left upper diag =
    if psv == 1
    then pos left
    else if psv == 2
    then pos upper
    else if psv == 3
    then pos diag
    else if psv == 4
    then pos left +ℤ pos upper -ℤ pos diag
    else if psv == 5
    then pos left +ℤ half (pos upper -ℤ pos diag)
    else if psv == 6
    then pos upper +ℤ half (pos left -ℤ pos diag)
    else if psv == 7
    then half (pos left +ℤ pos upper)
    else pos 0

unfoldable pub quick_predict : LJpeg → ℕ → ℕ → ℕ → Result ℤ
quick_predict lj col comp psv = do
  require (leb 1 col)
  upper ← sample lj.mcu_row lj.prev_row col comp
  left ← sample lj.mcu_row lj.cur_row (col - 1) comp
  diag ← sample lj.mcu_row lj.prev_row (col - 1) comp
  ok (predictor psv left upper diag)

-- `for col in 0..num_col` of `pm_put_row`, from `col` on. `get_sos` takes 4 bits for `pt`, so that
-- `v << pt` shifts by less than the 16 bits of `v`.
unfoldable pub put_columns : ℕ → ℕ → List Mcu → ℕ → ℕ → SlicedBuffer ℕ → Result (SlicedBuffer ℕ)
put_columns zero col row_buf num_comp pt output = ok output
put_columns (suc left) col row_buf num_comp pt output = do
  mcu ← index row_buf col
  require (leb num_comp (length mcu))
  output' ← extend (map (λ v. shl 16 v pt) (take num_comp mcu)) output
  put_columns left (col + 1) row_buf num_comp pt output'

unfoldable pub pm_put_row : List Mcu → ℕ → ℕ → ℕ → SlicedBuffer ℕ → Result (SlicedBuffer ℕ)
pm_put_row row_buf num_comp num_col pt output = put_columns num_col 0 row_buf num_comp pt output

-- The `if let Some(dctbl)` of every row: the table of the component at `comp` in the scan.
unfoldable pub table_of : DecompressInfo → ℕ → Result HuffmanTable
table_of dc comp = do
  ci ← index dc.mcu_membership comp
  compptr ← index dc.cur_comp_info ci
  slot ← index dc.dc_huff_tbl_ptrs compptr.dc_tbl_no
  elim slot [ none ↦ err jpeg_format | some dctbl ↦ ok dctbl ]

-- In the columns behind the first, a selector out of range is an error and no panic.
unfoldable pub checked_table_of : DecompressInfo → ℕ → Result HuffmanTable
checked_table_of dc comp = do
  ci ← index dc.mcu_membership comp
  compptr ← index dc.cur_comp_info ci
  reject_if (leb (length dc.dc_huff_tbl_ptrs) compptr.dc_tbl_no) jpeg_format
  table_of dc comp

-- What the row loops change.
abbrev pub Row : Type 0
Row = LJpeg × LJpegBitReader

-- `cur_row[col][comp] = (d + predictor) as u16`, with the difference read first.
unfoldable pub decode_sample : HuffmanTable → (LJpeg → Result ℤ) → ℕ → ℕ → Row → Result Row
decode_sample dctbl predict col comp (lj, r) = do
  (d, r') ← decode_difference dctbl r
  p ← predict lj
  rows ← set_sample lj.mcu_row lj.cur_row col comp (as_u16 (d +ℤ p))
  ok (record lj { mcu_row = rows }, r')

-- `for cur_comp in 0..comps_in_scan`
unfoldable pub each_comp : (ℕ → Row → Result Row) → ℕ → ℕ → Row → Result Row
each_comp step zero comp s = ok s
each_comp step (suc left) comp s = do s' ← step comp s; each_comp step left (comp + 1) s'

-- `for col in 1..num_col`
unfoldable pub each_col : (ℕ → Row → Result Row) → ℕ → ℕ → Row → Result Row
each_col step zero col s = ok s
each_col step (suc left) col s = do s' ← step col s; each_col step left (col + 1) s'

-- The predictor of the first sample of the picture.
unfoldable pub first_predictor : ℕ → ℕ → LJpeg → Result ℤ
first_predictor pr pt lj = do reject_if (ltb pr (pt + 1)) jpeg_format; ok (pos (2 ^ (pr - pt - 1)))

unfoldable pub left_predictor : ℕ → ℕ → LJpeg → Result ℤ
left_predictor col comp lj = do left ← sample lj.mcu_row lj.cur_row (col - 1) comp; ok (pos left)

unfoldable pub upper_predictor : ℕ → LJpeg → Result ℤ
upper_predictor comp lj = do upper ← sample lj.mcu_row lj.prev_row 0 comp; ok (pos upper)

unfoldable pub first_row_sample : DecompressInfo → ℕ → Row → Result Row
first_row_sample dc comp s = do
  dctbl ← table_of dc comp
  decode_sample dctbl (first_predictor dc.data_precision dc.pt) 0 comp s

unfoldable pub first_row_column : DecompressInfo → ℕ → Row → Result Row
first_row_column dc col s =
    each_comp
      (λ comp s. do
        dctbl ← table_of dc comp
        decode_sample dctbl (left_predictor col comp) col comp s)
      dc.comps_in_scan 0 s

unfoldable pub decode_first_row : DecompressInfo × Row → Result (DecompressInfo × Row)
decode_first_row (dc, s) = do
  s1 ← each_comp (first_row_sample dc) dc.comps_in_scan 0 s
  s2 ← each_col (first_row_column dc) (dc.image_width - 1) 1 s1
  (if not (dc.restart_in_rows == 0)
      then (do
        require (leb 1 dc.restart_rows_to_go)
        ok (record dc { restart_rows_to_go = dc.restart_rows_to_go - 1 }, s2))
      else ok (dc, s2))

-- The column 0 of a row that is not the first: the upper neighbour predicts.
unfoldable pub row_start : DecompressInfo → ℕ → Row → Result Row
row_start dc comp s = do
  dctbl ← table_of dc comp
  decode_sample dctbl (upper_predictor comp) 0 comp s

unfoldable pub row_column : DecompressInfo → ℕ → Row → Result Row
row_column dc col s =
    each_comp
      (λ comp s. do
        dctbl ← checked_table_of dc comp
        decode_sample dctbl (λ lj. quick_predict lj col comp dc.ss) col comp s)
      dc.comps_in_scan 0 s

unfoldable pub decode_row : DecompressInfo → Row → Result Row
decode_row dc s = do
  s1 ← each_comp (row_start dc) dc.comps_in_scan 0 s
  each_col (row_column dc) (dc.image_width - 1) 1 s1

-- `process_restart`; its search is the one of `next_marker`.
unfoldable pub process_restart : DecompressInfo × Row → Result (DecompressInfo × Row)
process_restart (dc, s) = do
  let r = discard s.1
  (c, p) ← scan_marker false (drop r.pos r.buffer) r.pos
  reject_if (not (c == m_rst0 + dc.next_restart_num)) jpeg_format
  ok (
    record dc {
      restart_rows_to_go = dc.restart_in_rows;
      next_restart_num = bit_and (dc.next_restart_num + 1) 7;
    },
    (s.0, record r { pos = p }),
  )
