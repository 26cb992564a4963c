-- ===== src/Decompress/Ljpeg/Examples.antt =====
-- A small stream, and the theorems at concrete inputs.
use libopenraw.Prelude.{
  After, ℕ, ◌+◌, ◌*◌, ◌≡◌, refl, true, none, List, [], ◌∷◌, replicate, Result, decompression, err,
  ok, panic, index, update, half, as_u16, ◌+ℤ◌, ◌-ℤ◌, arith,
}
use libopenraw.Decompress.Ljpeg.Search.{next_marker-IsStop, IsStop}
use libopenraw.Decompress.Ljpeg.Rounds.{process_tables_rounds}
use libopenraw.Decompress.Ljpeg.Size.{decompress_buffer-IsFull, IsFull}
use libopenraw.Decompress.BitReader.{
  LJpegBitReader, new_reader, read_u8, read_u16, skip, discard, next_byte, load, fill_rounds,
  fill_bit_buffer, shown, peek, consume, get_bits,
}
use libopenraw.Decompress.SlicedBuffer.{
  slices_or_width, new, leave_slice, enter_slice, next_slice, next_row, advance, extend_single,
  extend_sliced, extend, into_vec,
}
use libopenraw.Decompress.Ljpeg.Huffman.{
  write_sizes, write_all_sizes, write_codes, write_all_codes, write_encoding, write_decoding,
  write_all_decoding, write_lookups, write_lookup, write_all_lookups, fix, index_signed,
  longer_code, huff_decode, extend_sign, decode_difference,
}
use libopenraw.Decompress.Ljpeg.Markers.{action}
use libopenraw.Decompress.Ljpeg.Info.{
  default_info, get_soi, read_components, read_lengths, read_values, read_table, read_tables,
  scan_marker, next_marker, find_component, read_selectors, get_sof, get_dht, skip_variable,
  get_dri, get_sos, run_action, on_marker, process_rounds, process_tables,
}
use libopenraw.Decompress.Ljpeg.Rows.{
  LJpeg, sample, set_sample, predictor, quick_predict, put_columns, pm_put_row, table_of,
  checked_table_of, decode_sample, each_comp, each_col, first_predictor, left_predictor,
  upper_predictor, first_row_sample, first_row_column, decode_first_row, row_start, row_column,
  decode_row, process_restart,
}
use libopenraw.Decompress.Ljpeg.Image.{
  Tile, new_ljpeg, set_slices, sum_fits, tile_size, check_sampling, identity_from, membership_of,
  add_row, decoder_struct_init, fix_tables, huff_decoder_init, put_row, first_row_step, row_step,
  image_step, image_steps, decode_image, read_file_header, read_scan_header, decompress_buffer,
}
use libopenraw.Decompress.Ljpeg.Frame.{get_sof-IsFrame, IsFrame}

-- A big-endian read.
abbrev be16 : List ℕ → Result ℕ
be16 [] = panic
be16 (a ∷ []) = panic
be16 (a ∷ b ∷ rest) = ok (a * 256 + b)

-- A frame of 2 by 2 samples of 8 bits, whose differences are all 0.
abbrev stream : List ℕ
stream =
    0xff ∷ 0xd8 ∷ 0xff ∷ 0xc4 ∷ 0x00 ∷ 0x14 ∷ 0x00 ∷ 1 ∷ 0 ∷ 0 ∷ 0 ∷ 0 ∷ 0 ∷ 0 ∷ 0 ∷ 0 ∷ 0 ∷ 0 ∷ 0
    ∷ 0 ∷ 0 ∷ 0 ∷ 0 ∷ 0x00 ∷ 0xff ∷ 0xc3 ∷ 0x00 ∷ 0x0b ∷ 8 ∷ 0 ∷ 2 ∷ 0 ∷ 2 ∷ 1 ∷ 1 ∷ 0x11 ∷ 0 ∷ 0xff
    ∷ 0xda ∷ 0 ∷ 8 ∷ 1 ∷ 1 ∷ 0 ∷ 1 ∷ 0 ∷ 0 ∷ 0 ∷ 0 ∷ 0 ∷ 0 ∷ 0 ∷ 0xff ∷ 0xd9 ∷ []

abbrev grey : List (List ℕ)
grey = (128 ∷ 0 ∷ 0 ∷ 0 ∷ []) ∷ (128 ∷ 0 ∷ 0 ∷ 0 ∷ []) ∷ []

abbrev decoder : LJpeg
decoder = record {
  slices = none;
  is_raw = true;
  cur_row = 0;
  prev_row = 1;
  mcu_row = grey ∷ grey ∷ [];
}

abbrev tile : Tile
tile = record { width = 2; height = 2; u_width = 2; u_height = 2; bpc = 8; buf = replicate 4 128 }

decompress_buffer-IsFull_example : IsFull tile
unfolding new_reader read_u8 read_u16 skip discard next_byte load fill_rounds fill_bit_buffer shown
    peek consume get_bits slices_or_width new leave_slice enter_slice next_slice next_row advance
    extend_single extend_sliced extend into_vec write_sizes write_all_sizes write_codes
    write_all_codes write_encoding write_decoding write_all_decoding write_lookups write_lookup
    write_all_lookups fix index_signed longer_code huff_decode extend_sign decode_difference action
    get_soi read_components read_lengths read_values read_table read_tables scan_marker next_marker
    find_component read_selectors get_sof get_dht skip_variable get_dri get_sos run_action on_marker
    process_rounds process_tables sample set_sample predictor quick_predict put_columns pm_put_row
    table_of checked_table_of decode_sample each_comp each_col first_predictor left_predictor
    upper_predictor first_row_sample first_row_column decode_first_row row_start row_column
    decode_row process_restart new_ljpeg set_slices sum_fits tile_size check_sampling identity_from
    membership_of add_row decoder_struct_init fix_tables huff_decoder_init put_row first_row_step
    row_step image_step image_steps decode_image read_file_header read_scan_header decompress_buffer
    index update ◌+ℤ◌ ◌-ℤ◌ half as_u16
decompress_buffer-IsFull_example =
    decompress_buffer-IsFull be16 (new_ljpeg true) stream (decoder, tile) refl

next_marker-IsStop_example : IsStop (new_reader stream) (next_marker (new_reader stream))
next_marker-IsStop_example = next_marker-IsStop (new_reader stream)

process_tables_rounds_example :
    process_rounds be16 (err decompression) 60 (default_info, new_reader stream)
    ≡ process_tables be16 (default_info, new_reader stream)
unfolding new_reader
process_tables_rounds_example =
    process_tables_rounds be16 (err decompression) 60 (default_info, new_reader stream)
      (omega arith)

-- At the frame header of the stream.
abbrev frame : LJpegBitReader
frame = record { buffer = stream; pos = 26; bits_left = 0; bits = 0 }

get_sof-IsFrame_example : After (λ q. IsFrame q.0) (get_sof be16 (default_info, frame))
get_sof-IsFrame_example = get_sof-IsFrame be16 (default_info, frame)
