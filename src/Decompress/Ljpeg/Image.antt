-- ===== src/Decompress/Ljpeg/Image.antt =====
-- src/decompress/ljpeg.rs: the headers of a stream, the set-up of the decoder, and the picture.
use libopenraw.Prelude.{
  ℕ, zero, suc, ◌+◌, ◌-◌, ◌*◌, ◌^◌, ◌/◌, Bool, true, false, not, ◌&&◌, ◌||◌, Option, none, some,
  List, [], ◌∷◌, ◌++◌, ◌==◌, leb, ltb, if◌then◌else◌, length, replicate, Result, ok, err,
  jpeg_format, decompression, ◌>>=◌, ◌>>◌, reject_if, require, index, update,
}
use libopenraw.Decompress.BitReader.{new_reader, read_u8, discard}
use libopenraw.Bitmap.{ImageBuffer, with_data}
use libopenraw.Decompress.SlicedBuffer.{SlicedBuffer, new, into_vec}
use libopenraw.Decompress.Ljpeg.Markers.{m_sof0, m_sof1, m_sof3, m_soi, m_sos, is_any}
use libopenraw.Decompress.Ljpeg.Huffman.{fix}
use libopenraw.Decompress.Ljpeg.Info.{
  DecompressInfo, JpegComponentInfo, Parsed, default_info, resize, get_soi, get_sof, get_sos,
  process_tables,
}
use libopenraw.Decompress.Ljpeg.Rows.{
  LJpeg, Mcu, Row, pm_put_row, decode_first_row, decode_row, process_restart,
}

pub record Tile : Type 0 where
  pub width : ℕ
  pub height : ℕ
  pub u_width : ℕ
  pub u_height : ℕ
  pub bpc : ℕ
  pub buf : List ℕ

-- `LJpeg::new`
unfoldable pub new_ljpeg : Bool → LJpeg
new_ljpeg is_raw = record {
  slices = none;
  is_raw = is_raw;
  cur_row = 0;
  prev_row = 1;
  mcu_row = [];
}

-- `N, col1, col2` stands for N slices of the width col1 and a last one of the width col2.
unfoldable pub set_slices : List ℕ → LJpeg → Result LJpeg
set_slices slices lj = do
  n ← index slices 0
  col1 ← index slices 1
  col2 ← index slices 2
  v ← update (replicate (n + 1) col1) n col2
  ok (record lj { slices = some v })

abbrev pub sum_of : List ℕ → ℕ
sum_of [] = 0
sum_of (x ∷ xs) = x + sum_of xs

abbrev pub slice_sum : Option (List ℕ) → ℕ
slice_sum none = 0
slice_sum (some s) = sum_of s

-- The sum of `u32` numbers panics where it overflows; the slices of a tile are not summed.
unfoldable pub sum_fits : Bool → LJpeg → Result (Unit {0})
sum_fits true lj = ok tt
sum_fits false lj = require (ltb (slice_sum lj.slices) (2 ^ 32))

-- The width and the height of the tile.
unfoldable pub tile_size : Bool → LJpeg → DecompressInfo → ℕ × ℕ
tile_size tiled lj dc =
    let full = dc.image_width * dc.num_components in
    let slice_width = slice_sum lj.slices in
    if tiled
    then (dc.image_width, dc.image_height)
    else (if lj.is_raw && (dc.num_components == 4)
        then (if not (slice_width == 0) && (full == slice_width)
            then (full, dc.image_height)
            else (dc.image_width * 2, dc.image_height * 2))
        else (full, dc.image_height))

-- `for ci in 0..dc.num_components` of `decoder_struct_init`.
unfoldable pub check_sampling : ℕ → ℕ → List JpegComponentInfo → Result (Unit {0})
check_sampling zero ci comp_info = ok tt
check_sampling (suc left) ci comp_info = do
  comp ← index comp_info ci
  reject_if (not (comp.h_samp_factor == 1) || not (comp.v_samp_factor == 1)) jpeg_format
  check_sampling left (ci + 1) comp_info

-- `mcu_membership[ci] = ci`
unfoldable pub identity_from : ℕ → ℕ → List ℕ → Result (List ℕ)
identity_from zero ci membership = ok membership
identity_from (suc left) ci membership = do
  membership' ← update membership ci ci
  identity_from left (ci + 1) membership'

unfoldable pub membership_of : ℕ → List ℕ → Result (List ℕ)
membership_of comps membership =
    if comps == 1
    then update membership 0 0
    else (do reject_if (ltb 4 comps) jpeg_format; identity_from comps 0 membership)

-- `mcu_row.push(vec![]); mcu_row[i].resize(width, vec![0; 4])`
unfoldable pub add_row : ℕ → ℕ → List (List Mcu) → Result (List (List Mcu))
add_row i width rows = do
  buf ← index (rows ++ [] ∷ []) i
  update (rows ++ [] ∷ []) i (resize width (replicate 4 0) buf)

unfoldable pub decoder_struct_init : LJpeg → DecompressInfo → Result (LJpeg × DecompressInfo)
decoder_struct_init lj dc = do
  check_sampling dc.num_components 0 dc.comp_info
  membership ← membership_of dc.comps_in_scan dc.mcu_membership
  rows ← add_row 0 dc.image_width lj.mcu_row
  rows' ← add_row 1 dc.image_width rows
  ok (record lj { mcu_row = rows' }, record dc { mcu_membership = membership })

-- `for ci in 0..dc.comps_in_scan` of `huff_decoder_init`.
unfoldable pub fix_tables : ℕ → ℕ → DecompressInfo → Result DecompressInfo
fix_tables zero ci dc = ok dc
fix_tables (suc left) ci dc = do
  compptr ← index dc.cur_comp_info ci
  reject_if (leb (length dc.dc_huff_tbl_ptrs) compptr.dc_tbl_no) jpeg_format
  slot ← index dc.dc_huff_tbl_ptrs compptr.dc_tbl_no
  table ← elim slot [ none ↦ err decompression | some t ↦ fix t ]
  tables ← update dc.dc_huff_tbl_ptrs compptr.dc_tbl_no (some table)
  fix_tables left (ci + 1) (record dc { dc_huff_tbl_ptrs = tables })

-- A division by an empty width panics.
unfoldable pub huff_decoder_init : Parsed → Result Parsed
huff_decoder_init (dc, r) = do
  dc' ← fix_tables dc.comps_in_scan 0 dc
  require (not (dc'.image_width == 0))
  let rows = dc'.restart_interval / dc'.image_width
  ok (
    record dc' { restart_in_rows = rows; restart_rows_to_go = rows; next_restart_num = 0 },
    discard r,
  )

-- What `decode_image` changes.
pub record Decoding : Type 0 where
  pub dc : DecompressInfo
  pub row : Row
  pub output : SlicedBuffer ℕ

-- A finished row is put out, and becomes the previous one.
unfoldable pub put_row : Decoding → Result Decoding
put_row st = do
  let lj = st.row.0
  buf ← index lj.mcu_row lj.cur_row
  output' ← pm_put_row buf st.dc.comps_in_scan st.dc.image_width st.dc.pt st.output
  ok (record st {
    row = (record lj { cur_row = lj.prev_row; prev_row = lj.cur_row }, st.row.1);
    output = output';
  })

unfoldable pub first_row_step : Decoding → Result Decoding
first_row_step st = do
  (dc', row') ← decode_first_row (st.dc, st.row)
  put_row (record st { dc = dc'; row = row' })

unfoldable pub row_step : Decoding → Result Decoding
row_step st = do row' ← decode_row st.dc st.row; put_row (record st { row = row' })

-- One round of `for _ in 1..num_row`.
unfoldable pub image_step : Decoding → Result Decoding
image_step st =
    if not (st.dc.restart_in_rows == 0)
    then (if st.dc.restart_rows_to_go == 0
        then (do
          (dc', row') ← process_restart (st.dc, st.row)
          first_row_step (record st { dc = dc'; row = row' }))
        else row_step
            (record st { dc = record st.dc { restart_rows_to_go = st.dc.restart_rows_to_go - 1 } }))
    else row_step st

unfoldable pub image_steps : ℕ → Decoding → Result Decoding
image_steps zero st = ok st
image_steps (suc left) st = do st' ← image_step st; image_steps left st'

unfoldable pub decode_image : Decoding → Result Decoding
decode_image st = do st' ← first_row_step st; image_steps (st.dc.image_height - 1) st'

module _ (be_u16 : List ℕ → Result ℕ) where
  unfoldable pub read_file_header : Parsed → Result Parsed
  read_file_header (dc, r) = do
    (c, r1) ← read_u8 r
    (c2, r2) ← read_u8 r1
    reject_if (not (c == 0xff) || not (c2 == m_soi)) decompression
    (m, p) ← process_tables be_u16 (get_soi dc, r2)
    (if is_any m (m_sof0 ∷ m_sof1 ∷ m_sof3 ∷ []) then get_sof be_u16 p else ok p)

  unfoldable pub read_scan_header : Parsed → Result (Bool × Parsed)
  read_scan_header p = do
    (m, p1) ← process_tables be_u16 p
    (if m == m_sos then (do p2 ← get_sos be_u16 p1; ok (true, p2)) else ok (false, p1))

  -- `decompress_buffer`; the decoder is returned with the tile.
  unfoldable pub decompress_buffer : LJpeg → List ℕ → Bool → Result (LJpeg × Tile)
  decompress_buffer lj buffer tiled = do
    p1 ← read_file_header (default_info, new_reader buffer)
    (scan, p2) ← read_scan_header p1
    let dc = p2.0
    reject_if (dc.image_width == 0 || dc.image_height == 0) jpeg_format
    reject_if (ltb 4 dc.num_components) jpeg_format
    output ← new 0 (dc.image_width * dc.num_components) dc.image_height lj.slices
    sum_fits tiled lj
    let size = tile_size tiled lj dc
    (lj', dc1) ← decoder_struct_init lj dc
    (dc2, r) ← huff_decoder_init (dc1, p2.1)
    st ← decode_image (record { dc = dc2; row = (lj', r); output = output })
    ok (
      st.row.0,
      record {
        width = size.0;
        height = size.1;
        u_width = size.0;
        u_height = size.1;
        bpc = dc.data_precision;
        buf = into_vec st.output;
      },
    )

  -- The picture as an image of one component.
  unfoldable pub decompress : LJpeg → List ℕ → Result (LJpeg × ImageBuffer ℕ)
  decompress lj buffer = do
    (lj', tile) ← decompress_buffer lj buffer false
    ok (lj', with_data tile.buf tile.width tile.height tile.bpc 1)
