-- ===== src/Decompress/Ljpeg/Info.antt =====
-- src/decompress/ljpeg.rs: the state of a decompression and the parser of the JPEG segments. The
-- function `be_u16` is `BigEndian::read_u16` of the byteorder crate. Warnings are left out.
use libopenraw.Prelude.{
  ℕ, zero, suc, ◌+◌, ◌-◌, ◌*◌, Bool, true, false, not, ◌&&◌, ◌||◌, Option, none, some, List, [],
  ◌∷◌, ◌++◌, ◌==◌, leb, ltb, if◌then◌else◌, length, take, drop, replicate, Result, ok, panic,
  jpeg_format, ◌>>=◌, ◌>>◌, reject_if, require, index, update, bit_and, shr,
}
use libopenraw.Decompress.BitReader.{LJpegBitReader, read_u8, read_u16, skip}
use libopenraw.Decompress.Ljpeg.Huffman.{HuffmanTable, default_table}
use libopenraw.Decompress.Ljpeg.Markers.{
  Action, to_return, read_dht, warn, read_dri, read_app0, skip_segment, action,
}

pub record JpegComponentInfo : Type 0 where
  pub component_id : ℕ
  pub component_index : ℕ
  pub h_samp_factor : ℕ
  pub v_samp_factor : ℕ
  pub dc_tbl_no : ℕ

abbrev pub default_component : JpegComponentInfo
default_component = record {
  component_id = 0;
  component_index = 0;
  h_samp_factor = 0;
  v_samp_factor = 0;
  dc_tbl_no = 0;
}

pub record DecompressInfo : Type 0 where
  pub image_width : ℕ
  pub image_height : ℕ
  pub data_precision : ℕ
  pub comp_info : List JpegComponentInfo
  pub num_components : ℕ
  pub cur_comp_info : List JpegComponentInfo
  pub comps_in_scan : ℕ
  pub mcu_membership : List ℕ
  pub dc_huff_tbl_ptrs : List (Option HuffmanTable)
  pub ss : ℕ
  pub pt : ℕ
  pub restart_interval : ℕ
  pub restart_in_rows : ℕ
  pub restart_rows_to_go : ℕ
  pub next_restart_num : ℕ

-- `DecompressInfo::default`
abbrev pub default_info : DecompressInfo
default_info = record {
  image_width = 0;
  image_height = 0;
  data_precision = 0;
  comp_info = [];
  num_components = 0;
  cur_comp_info = replicate 4 default_component;
  comps_in_scan = 0;
  mcu_membership = replicate 10 0;
  dc_huff_tbl_ptrs = replicate 4 none;
  ss = 0;
  pt = 0;
  restart_interval = 0;
  restart_in_rows = 0;
  restart_rows_to_go = 0;
  next_restart_num = 0;
}

-- What a segment's parser leaves: the state and the reader.
abbrev pub Parsed : Type 0
Parsed = DecompressInfo × LJpegBitReader

-- `Vec::resize`
abbrev pub resize {ℓ} : {A : Type ℓ} → ℕ → A → List A → List A
resize n a xs = take n xs ++ replicate (n - length xs) a

unfoldable pub get_soi : DecompressInfo → DecompressInfo
get_soi dc = record dc { restart_interval = 0 }

-- `for ci in 0..self.num_components` of `get_sof`.
unfoldable pub read_components : ℕ → ℕ → Parsed → Result Parsed
read_components zero ci p = ok p
read_components (suc left) ci (dc, r) = do
  compptr ← index dc.comp_info ci
  (id, r1) ← read_u8 r
  (c, r2) ← read_u8 r1
  (tq, r3) ← read_u8 r2
  comp_info' ← update dc.comp_info ci (record compptr {
    component_index = ci;
    component_id = id;
    h_samp_factor = bit_and (shr c 4) 15;
    v_samp_factor = bit_and c 15;
  })
  read_components left (ci + 1) (record dc { comp_info = comp_info' }, r3)

-- One byte of a DHT segment's 16 lengths: `bits[i]`, and the sum in a `u16`.
unfoldable pub read_lengths :
    ℕ → ℕ → List ℕ → ℕ → LJpegBitReader → Result (List ℕ × ℕ × LJpegBitReader)
read_lengths zero i bits count r = ok (bits, count, r)
read_lengths (suc left) i bits count r = do
  (b, r') ← read_u8 r
  bits' ← update bits i b
  read_lengths left (i + 1) bits' (count + b) r'

unfoldable pub read_values : ℕ → ℕ → List ℕ → LJpegBitReader → Result (List ℕ × LJpegBitReader)
read_values zero i huffval r = ok (huffval, r)
read_values (suc left) i huffval r = do
  (b, r') ← read_u8 r
  huffval' ← update huffval i b
  read_values left (i + 1) huffval' r'

-- The table that a DHT segment starts from.
abbrev pub table_or_default : Option HuffmanTable → HuffmanTable
table_or_default none = default_table
table_or_default (some t) = t

-- One table of a DHT segment, with the number of its codes.
unfoldable pub read_table : Parsed → Result (ℕ × Parsed)
read_table (dc, r) = do
  (i, r1) ← read_u8 r
  reject_if (leb 4 i) jpeg_format
  slot ← index dc.dc_huff_tbl_ptrs i
  let htblptr = table_or_default slot
  bits0 ← update htblptr.bits 0 0
  q ← read_lengths 16 1 bits0 0 r1
  reject_if (ltb 256 q.1) jpeg_format
  v ← read_values q.1 0 htblptr.huffval q.2
  tables ← update dc.dc_huff_tbl_ptrs i (some (record htblptr { bits = q.0; huffval = v.0 }))
  ok (q.1, (record dc { dc_huff_tbl_ptrs = tables }, v.1))

-- `while length > 0`. The `i32` may fall below 0, where the loop ends as it does at 0. A table takes
-- 17 bytes at least, so that `length` rounds are enough.
unfoldable pub read_tables : ℕ → ℕ → Parsed → Result Parsed
read_tables zero len p = ok p
read_tables (suc left) len p = elim (len == 0) [
  | true ↦ ok p
  | false ↦ do q ← read_table p; read_tables left (len - (17 + q.0)) q.1
]

-- `next_marker`, on the bytes that are left and the position of the first: `after` is true where the
-- last byte was 0xff. A stuffed zero starts the search again.
unfoldable pub scan_marker : Bool → List ℕ → ℕ → Result (ℕ × ℕ)
scan_marker after [] pos = panic
scan_marker false (c ∷ rest) pos = scan_marker (c == 0xff) rest (pos + 1)
scan_marker true (c ∷ rest) pos =
    if c == 0xff
    then scan_marker true rest (pos + 1)
    else (if c == 0 then scan_marker false rest (pos + 1) else ok (c, pos + 1))

unfoldable pub next_marker : LJpegBitReader → Result (ℕ × LJpegBitReader)
next_marker r = do
  (c, p) ← scan_marker false (drop r.pos r.buffer) r.pos
  ok (c, record r { pos = p })

-- `while ci < self.num_components`: the first component with the identifier.
unfoldable pub find_component : ℕ → ℕ → ℕ → List JpegComponentInfo → Result ℕ
find_component zero ci cc comp_info = ok ci
find_component (suc left) ci cc comp_info = do
  comp ← index comp_info ci
  elim (cc == comp.component_id) [
    | true ↦ ok ci
    | false ↦ find_component left (ci + 1) cc comp_info
  ]

-- `for i in 0..n` of `get_sos`.
unfoldable pub read_selectors : ℕ → ℕ → ℕ → Parsed → Result Parsed
read_selectors zero i len p = ok p
read_selectors (suc left) i len (dc, r) = do
  (cc, r1) ← read_u8 r
  (c, r2) ← read_u8 r1
  require (leb 2 len)
  ci ← find_component dc.num_components 0 cc dc.comp_info
  reject_if (leb dc.num_components ci) jpeg_format
  comp ← index dc.comp_info ci
  let compptr = record comp { dc_tbl_no = bit_and (shr c 4) 15 }
  comp_info' ← update dc.comp_info ci compptr
  cur_comp_info' ← update dc.cur_comp_info i compptr
  read_selectors left (i + 1) (len - 2)
      (record dc { comp_info = comp_info'; cur_comp_info = cur_comp_info' }, r2)

module _ (be_u16 : List ℕ → Result ℕ) where
  unfoldable pub get_sof : Parsed → Result Parsed
  get_sof (dc, r) = do
    (len, r1) ← read_u16 be_u16 r
    (precision, r2) ← read_u8 r1
    (height, r3) ← read_u16 be_u16 r2
    (width, r4) ← read_u16 be_u16 r3
    (components, r5) ← read_u8 r4
    reject_if ((height == 0) || (width == 0) || (components == 0)) jpeg_format
    reject_if (ltb precision 2 || ltb 16 precision) jpeg_format
    reject_if (not (len == components * 3 + 8)) jpeg_format
    read_components components 0 (
      record dc {
        data_precision = precision;
        image_height = height;
        image_width = width;
        num_components = components;
        comp_info = resize components default_component dc.comp_info;
      },
      r5,
    )

  unfoldable pub get_dht : Parsed → Result Parsed
  get_dht (dc, r) = do (len, r1) ← read_u16 be_u16 r; read_tables (len - 2) (len - 2) (dc, r1)

  -- `skip_variable`, and `get_app0` which is the same.
  unfoldable pub skip_variable : LJpegBitReader → Result LJpegBitReader
  skip_variable r = do
    (len, r1) ← read_u16 be_u16 r
    reject_if (ltb len 2) jpeg_format
    ok (skip (len - 2) r1)

  unfoldable pub get_dri : Parsed → Result Parsed
  get_dri (dc, r) = do
    (len, r1) ← read_u16 be_u16 r
    reject_if (not (len == 4)) jpeg_format
    (interval, r2) ← read_u16 be_u16 r1
    ok (record dc { restart_interval = interval }, r2)

  unfoldable pub get_sos : Parsed → Result Parsed
  get_sos (dc, r) = do
    (len, r1) ← read_u16 be_u16 r
    reject_if (ltb len 3) jpeg_format
    (n, r2) ← read_u8 r1
    reject_if (not (len - 3 == n * 2 + 3) || not (leb 1 n && leb n 4)) jpeg_format
    (dc', r3) ← read_selectors n 0 (len - 3) (record dc { comps_in_scan = n }, r2)
    (ss', r4) ← read_u8 r3
    (c, r5) ← read_u8 (skip 1 r4)
    ok (record dc' { ss = ss'; pt = bit_and c 0x0f }, r5)

  unfoldable pub run_action : Action → Parsed → Result Parsed
  run_action read_dht p = get_dht p
  run_action read_dri p = get_dri p
  run_action read_app0 (dc, r) = do r' ← skip_variable r; ok (dc, r')
  run_action skip_segment (dc, r) = do r' ← skip_variable r; ok (dc, r')
  run_action warn p = ok p
  run_action to_return p = ok p

  -- A round of the loop behind its marker, with `next` for the rounds that follow.
  unfoldable pub on_marker :
      Action → ℕ → Parsed → (Parsed → Result (ℕ × Parsed)) → Result (ℕ × Parsed)
  on_marker to_return c p next = ok (c, p)
  on_marker a c p next = do q ← run_action a p; next q

  -- A round passes two bytes of the buffer at least. `late` is what the loop would give when its
  -- rounds run out, which `process_tables_rounds` shows it never does.
  unfoldable pub process_rounds : Result (ℕ × Parsed) → ℕ → Parsed → Result (ℕ × Parsed)
  process_rounds late zero p = late
  process_rounds late (suc left) (dc, r) = do
    (c, r1) ← next_marker r
    on_marker (action c) c (dc, r1) (process_rounds late left)

  unfoldable pub process_tables : Parsed → Result (ℕ × Parsed)
  process_tables p = process_rounds panic (length p.1.buffer + 1) p
