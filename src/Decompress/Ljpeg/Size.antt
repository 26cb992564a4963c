-- ===== src/Decompress/Ljpeg/Size.antt =====
-- The size that a tile declares is the size of its data.
use libopenraw.Prelude.{
  ℕ, zero, suc, ◌+◌, ◌-◌, ◌*◌, ◌/◌, ◌≡◌, refl, sym, ap, ◌∙◌, Bool, true, false, not, ◌&&◌, ◌||◌,
  Bool-cases, inl, inr, ◌==◌, ==_iff, leb, ltb, Option, List, [], ◌∷◌, map, take, length,
  length-set, length-replicate, set, Result, ok, require, reject_if, index, update, After,
  After-bind, After-any, After-skip, After-update, After-ok, arith, jpeg_format, shl,
}
use libopenraw.Decompress.BitReader.{new_reader}
use libopenraw.Decompress.SlicedBuffer.{
  SlicedBuffer, new, slices_or_width, leave_slice, enter_slice, next_slice, next_row, advance,
  extend_single, extend_sliced, extend, into_vec,
}
use libopenraw.Decompress.Ljpeg.Info.{DecompressInfo, default_info}
use libopenraw.Decompress.Ljpeg.Rows.{
  LJpeg, Mcu, put_columns, pm_put_row, decode_first_row, decode_row, process_restart,
}
use libopenraw.Decompress.Ljpeg.Image.{
  Tile, Decoding, tile_size, put_row, first_row_step, row_step, image_step, image_steps,
  decode_image, decoder_struct_init, huff_decoder_init, read_file_header, read_scan_header,
  decompress_buffer, slice_sum, sum_fits,
}

abbrev IsSized : ℕ → SlicedBuffer ℕ → Type 0
IsSized n sb = length sb.buffer ≡ n

leave_slice-buffer : (sb : SlicedBuffer ℕ) → (leave_slice sb).buffer ≡ sb.buffer
unfolding leave_slice
leave_slice-buffer sb = ground arith

enter_slice-buffer : (sb : SlicedBuffer ℕ) → (enter_slice sb).buffer ≡ sb.buffer
unfolding enter_slice
enter_slice-buffer sb = ground arith

next_slice-buffer : (sb : SlicedBuffer ℕ) → (next_slice sb).buffer ≡ sb.buffer
unfolding next_slice
next_slice-buffer sb = enter_slice-buffer (leave_slice sb) ∙ leave_slice-buffer sb

next_row-IsSized :
    (n : ℕ) (sb : SlicedBuffer ℕ) → IsSized n sb → After (λ p. IsSized n p.0) (next_row sb)
unfolding next_row
next_row-IsSized n sb h = After-bind _ _ (require (not (sb.width == 0))) _ (After-any _) (λ u t.
    elim (Bool-cases (sb.pos / sb.width + 1 == sb.height)) [
      | inl e ↦ rw e (ap length (next_slice-buffer sb) ∙ h)
      | inr e ↦ rw e h
    ])

advance-IsSized :
    (n : ℕ) (sb : SlicedBuffer ℕ) → IsSized n sb → After (λ p. IsSized n p.0) (advance sb)
unfolding advance
advance-IsSized n sb h =
    After-bind _ _ (require (leb sb.row_offset (sb.pos + 1))) _ (After-any _) (λ u t.
      elim (Bool-cases (leb sb.slice_width (sb.pos + 1 - sb.row_offset))) [
        | inl e ↦ rw e (next_row-IsSized n sb h)
        | inr e ↦ rw e h
      ])

extend_single-IsSized :
    (n : ℕ) (iter : List ℕ) (sb : SlicedBuffer ℕ) → IsSized n sb → IsSized n (extend_single iter sb)
unfolding extend_single
extend_single-IsSized n [] sb h = h
extend_single-IsSized n (d ∷ rest) sb h = elim (Bool-cases (ltb sb.pos (length sb.buffer))) [
  | inl e ↦ rw e (
      extend_single-IsSized n rest (record sb { buffer = set sb.buffer sb.pos d; pos = sb.pos + 1 })
        (length-set sb.buffer sb.pos d ∙ h))
  | inr e ↦ rw e h
]

extend_sliced-IsSized :
    (n : ℕ) (iter : List ℕ) (sb : SlicedBuffer ℕ)
    → IsSized n sb
    → After (IsSized n) (extend_sliced iter sb)
unfolding extend_sliced
extend_sliced-IsSized n [] sb h = h
extend_sliced-IsSized n (d ∷ rest) sb h =
    After-bind _ _ (update sb.buffer sb.pos d) _ (After-update sb.buffer sb.pos d) (λ b e.
      After-bind _ _ (advance (record sb { buffer = b })) _
        (advance-IsSized n (record sb { buffer = b }) (e ∙ h))
        (λ p q. extend_sliced-IsSized n rest (record p.0 { pos = p.1 }) q))

extend-IsSized :
    (n : ℕ) (iter : List ℕ) (sb : SlicedBuffer ℕ)
    → IsSized n sb
    → After (IsSized n) (extend iter sb)
unfolding extend
extend-IsSized n iter sb h = elim (Bool-cases (length sb.slices == 1)) [
  | inl e ↦ rw e (
      After-bind _ _ (require (leb sb.pos (length sb.buffer))) _ (After-any _)
        (λ u t. extend_single-IsSized n iter sb h))
  | inr e ↦ rw e (extend_sliced-IsSized n iter sb h)
]

put_columns-IsSized :
    (n left col : ℕ) (buf : List Mcu) (num_comp pt : ℕ) (sb : SlicedBuffer ℕ)
    → IsSized n sb
    → After (IsSized n) (put_columns left col buf num_comp pt sb)
unfolding put_columns
put_columns-IsSized n zero col buf num_comp pt sb h = h
put_columns-IsSized n (suc left) col buf num_comp pt sb h =
    After-bind _ _ (index buf col) _ (After-any _) (λ mcu t.
      After-bind _ _ (require (leb num_comp (length mcu))) _ (After-any _) (λ u t'.
        After-bind _ _ (extend (map (λ v. shl 16 v pt) (take num_comp mcu)) sb) _
          (extend-IsSized n _ sb h)
          (λ sb' h'. put_columns-IsSized n left (col + 1) buf num_comp pt sb' h')))

put_row-IsSized :
    (n : ℕ) (st : Decoding) → IsSized n st.output → After (λ st'. IsSized n st'.output) (put_row st)
unfolding put_row pm_put_row
put_row-IsSized n st h =
    After-bind _ _ (index st.row.0.mcu_row st.row.0.cur_row) _ (After-any _) (λ buf t.
      After-bind _ _ (put_columns st.dc.image_width 0 buf st.dc.comps_in_scan st.dc.pt st.output) _
        (put_columns-IsSized n _ 0 buf _ _ st.output h) (λ sb' h'. h'))

first_row_step-IsSized :
    (n : ℕ) (st : Decoding)
    → IsSized n st.output
    → After (λ st'. IsSized n st'.output) (first_row_step st)
unfolding first_row_step
first_row_step-IsSized n st h =
    After-bind _ _ (decode_first_row (st.dc, st.row)) _ (After-any _) (λ q t. put_row-IsSized n _ h)

row_step-IsSized :
    (n : ℕ) (st : Decoding)
    → IsSized n st.output
    → After (λ st'. IsSized n st'.output) (row_step st)
unfolding row_step
row_step-IsSized n st h =
    After-bind _ _ (decode_row st.dc st.row) _ (After-any _) (λ q t. put_row-IsSized n _ h)

image_step-IsSized :
    (n : ℕ) (st : Decoding)
    → IsSized n st.output
    → After (λ st'. IsSized n st'.output) (image_step st)
unfolding image_step
image_step-IsSized n st h = elim (Bool-cases (st.dc.restart_in_rows == 0)) [
  | inl e ↦ rw e (row_step-IsSized n st h)
  | inr e ↦ elim (Bool-cases (st.dc.restart_rows_to_go == 0)) [
    | inl f ↦
        rw (e, f)
          (After-bind _ _ (process_restart (st.dc, st.row)) _ (After-any _)
            (λ q t. first_row_step-IsSized n _ h))
    | inr f ↦ rw (e, f) (row_step-IsSized n _ h)
  ]
]

image_steps-IsSized :
    (n left : ℕ) (st : Decoding)
    → IsSized n st.output
    → After (λ st'. IsSized n st'.output) (image_steps left st)
unfolding image_steps
image_steps-IsSized n zero st h = h
image_steps-IsSized n (suc left) st h =
    After-bind _ _ (image_step st) _ (image_step-IsSized n st h)
      (λ st' h'. image_steps-IsSized n left st' h')

decode_image-IsSized :
    (n : ℕ) (st : Decoding)
    → IsSized n st.output
    → After (λ st'. IsSized n st'.output) (decode_image st)
unfolding decode_image
decode_image-IsSized n st h =
    After-bind _ _ (first_row_step st) _ (first_row_step-IsSized n st h)
      (λ st' h'. image_steps-IsSized n _ st' h')

new-IsSized :
    (width height : ℕ) (slices : Option (List ℕ))
    → After (IsSized (width * height)) (new 0 width height slices)
unfolding new
new-IsSized width height slices =
    After-bind _ _ (index (slices_or_width width slices) 0) _ (After-any _)
      (λ first t. length-replicate (width * height) 0)

-- The size that is chosen for a stream which is no tile of a larger picture has the area of the
-- decoded samples.
area_lem :
    (lj : LJpeg) (dc : DecompressInfo)
    → (tile_size false lj dc).0 * (tile_size false lj dc).1
      ≡ dc.image_width * dc.num_components * dc.image_height
unfolding tile_size
area_lem lj dc = elim (Bool-cases (lj.is_raw && (dc.num_components == 4))) [
  | inl e ↦
      elim (Bool-cases (
        not (slice_sum lj.slices == 0)
        && (dc.image_width * dc.num_components == slice_sum lj.slices))) [
          | inl f ↦ rw (e, f) refl
          | inr f ↦
              rw (e, f)
                (four dc.image_width dc.num_components dc.image_height
                  (four_lem lj.is_raw dc.num_components e))
        ]
  | inr e ↦ rw e refl
]
  where
    four_lem : (b : Bool) (n : ℕ) → (b && (n == 4)) ≡ true → n ≡ 4
    four_lem true n e = (==_iff n 4).0 e
    four_lem false n e = cc

    four : (w c h : ℕ) → c ≡ 4 → w * 2 * (h * 2) ≡ w * c * h
    four w c h e = rw e (omega arith)

-- A tile whose data has as many samples as its size says.
abbrev pub IsFull : Tile → Type 0
IsFull tile = length tile.buf ≡ tile.width * tile.height

-- Whatever the stream, the slices and the decoder's history: where `decompress_buffer` returns a
-- picture that is not a tile of a larger one, its data has exactly `width * height` samples, also
-- where the width and height are not those of the JPEG frame.
pub decompress_buffer-IsFull :
    (be_u16 : List ℕ → Result ℕ) (lj : LJpeg) (bytes : List ℕ) (result : LJpeg × Tile)
    → decompress_buffer be_u16 lj bytes false ≡ ok result
    → IsFull result.1
unfolding decompress_buffer into_vec
decompress_buffer-IsFull be_u16 lj bytes result =
    let Q : LJpeg × Tile → Type 0 = λ q. IsFull q.1 in
    After-ok Q (decompress_buffer be_u16 lj bytes false) result (
      After-bind _ _ (read_file_header be_u16 (default_info, new_reader bytes)) _ (After-any _)
        (λ p1 t1. After-bind _ _ (read_scan_header be_u16 p1) _ (After-any _) (λ p2 t2.
          After-bind _ Q
            (reject_if (p2.1.0.image_width == 0 || p2.1.0.image_height == 0) jpeg_format) _
            (After-any _)
            (λ u1 t3.
              After-bind _ Q (reject_if (ltb 4 p2.1.0.num_components) jpeg_format) _ (After-any _)
                (λ u2 t4.
                  let dc : DecompressInfo = p2.1.0 in
                  let size : ℕ = dc.image_width * dc.num_components * dc.image_height in
                  After-bind _ _
                    (new 0 (dc.image_width * dc.num_components) dc.image_height lj.slices) _
                    (new-IsSized (dc.image_width * dc.num_components) dc.image_height lj.slices)
                    (λ output h. After-skip Q (sum_fits false lj) _ (λ _.
                      After-bind _ _ (decoder_struct_init lj dc) _ (After-any _) (λ q1 t5.
                        After-bind _ _ (huff_decoder_init (q1.1, p2.1.1)) _ (After-any _) (λ q2 t6.
                          After-bind _ _
                            (decode_image
                              (record { dc = q2.0; row = (q1.0, q2.1); output = output }))
                            _ (decode_image-IsSized size _ h)
                            (λ st h'. h' ∙ sym (area_lem lj dc)))))))))))
