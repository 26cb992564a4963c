-- ===== src/Decompress/Ljpeg/Coding/Examples.antt =====
-- A row of two columns behind a row of fives, a picture of sevens, and the theorems at concrete inputs.
use libopenraw.Prelude.{
  ℕ, zero, suc, ◌-◌, ◌≤◌, ◌<◌, ◌≡◌, refl, Bool, true, none, some, List, [], ◌∷◌, ◌++◌, ok, index,
  pos, negsuc, ◌+ℤ◌, as_u16, arith,
}
use libopenraw.BitSource.{low_bits}
use libopenraw.Decompress.BitReader.{LJpegBitReader, new_reader}
use libopenraw.Decompress.BitReader.Stream.{IsBefore}
use libopenraw.Decompress.Ljpeg.Huffman.{HuffmanTable}
use libopenraw.Decompress.Ljpeg.Info.{DecompressInfo, default_info}
use libopenraw.Decompress.Ljpeg.Rows.{
  LJpeg, sample, predictor, table_of, checked_table_of, decode_row,
}
use libopenraw.Decompress.Ljpeg.Tables.Segment.{luminance}
use libopenraw.Decompress.Ljpeg.Coding.{IsSent}
use libopenraw.Decompress.Ljpeg.Coding.Columns.{columns_bits, IsDone}
use libopenraw.Decompress.SlicedBuffer.{SlicedBuffer}
use libopenraw.Decompress.Ljpeg.Image.{decode_image}
use libopenraw.Decompress.Ljpeg.Coding.Ready.{rows_bits, IsPicture, IsReady}
use libopenraw.Decompress.Ljpeg.Coding.Picture.{IsDecodedImage, decode_image-IsDecodedImage}
use libopenraw.Decompress.Ljpeg.Coding.Decoded.{On, decode_row-IsOn}

abbrev table : HuffmanTable
table = luminance.after

abbrev info : DecompressInfo
info = record default_info {
  image_width = 2;
  comps_in_scan = 1;
  data_precision = 3;
  ss = 1;
  dc_huff_tbl_ptrs = some table ∷ none ∷ none ∷ none ∷ [];
}

abbrev rows : LJpeg
rows = record {
  slices = none;
  is_raw = true;
  cur_row = 0;
  prev_row = 1;
  mcu_row = ((0 ∷ []) ∷ (0 ∷ []) ∷ []) ∷ ((5 ∷ []) ∷ (5 ∷ []) ∷ []) ∷ [];
}

abbrev fives : ℕ → ℕ → ℕ
fives c i = 5

-- The row has zeros: the difference -5, and no difference.
abbrev zeros : ℕ → ℕ → ℕ
zeros c i = 0

abbrev bits_of : ℕ → ℕ → List Bool
bits_of zero i = low_bits 3 4 ++ low_bits 3 2
bits_of (suc c) i = low_bits 2 0

abbrev reader : LJpegBitReader
reader = new_reader (0x88 ∷ 0xff ∷ 0xd9 ∷ [])

reader-IsBefore : IsBefore 0xd9 [] (columns_bits bits_of 1 2 0 ++ []) reader
unfolding new_reader
reader-IsBefore = record {
  ws = 0x88 ∷ [];
  at = record { left = refl; words = omega arith };
  cap = omega arith;
  padding = 0;
  held = refl;
}

tables : (i : ℕ) → i < 1 → checked_table_of info i ≡ ok table
unfolding checked_table_of table_of index
tables zero h = refl
tables (suc i) h = absurd (omega arith)

-- The codes 00 of 0 and 100 of 3.
sent_down : IsSent table (pos 5) 0 (low_bits 3 4 ++ low_bits 3 2)
unfolding ◌+ℤ◌ as_u16
sent_down =
    IsSent.differing (negsuc 4) 3 (low_bits 3 4) luminance.decodes.1.1.1.0 (omega arith)
      (omega arith) (omega arith) refl refl

same : IsSent table (pos 0) 0 (low_bits 2 0)
unfolding ◌+ℤ◌ as_u16
same = IsSent.equal (low_bits 2 0) luminance.decodes.0 refl refl

sends :
    (c i : ℕ)
    → 1 ≤ c
    → c < 2
    → i < 1
    → IsSent table
        (predictor 1 (zeros (c - 1) i) (fives c i) (fives (c - 1) i))
        (zeros c i)
        (bits_of c i)
unfolding predictor
sends zero i low h k = absurd (omega arith)
sends (suc c) i low h k = same

rows_start : IsDone 0xd9 [] rows fives zeros bits_of 2 1 0 0 rows.mcu_row
unfolding sample index
rows_start = record {
  above = above;
  here = here;
  done = λ c i e h k. absurd (omega arith);
  now = λ i e k. absurd (omega arith);
}
  where
    above : (c i : ℕ) → c < 2 → i < 1 → sample rows.mcu_row 1 c i ≡ ok 5
    above zero zero h k = refl
    above (suc zero) zero h k = refl
    above (suc (suc c)) zero h k = absurd (omega arith)
    above c (suc i) h k = absurd (omega arith)

    here : (c i : ℕ) → c < 2 → i < 1 → (v : ℕ) × (sample rows.mcu_row 0 c i ≡ ok v)
    here zero zero h k = (0, refl)
    here (suc zero) zero h k = (0, refl)
    here (suc (suc c)) zero h k = absurd (omega arith)
    here c (suc i) h k = absurd (omega arith)

decode_row-IsOn_example :
    On 0xd9 [] info rows (λ _. table) fives zeros bits_of 2 0 [] (decode_row info (rows, reader))
decode_row-IsOn_example =
    decode_row-IsOn 0xd9 [] info rows (λ _. table) fives zeros bits_of reader [] (omega arith)
      (omega arith) (omega arith) tables (λ i h. sent_down) sends rows_start reader-IsBefore

-- A picture of two rows and two columns of sevens: the first one is 3 more than its prediction.
abbrev square : DecompressInfo
square = record info { image_height = 2 }

abbrev sevens : ℕ → ℕ → ℕ → ℕ
sevens n c i = 7

abbrev square_bits : ℕ → ℕ → ℕ → List Bool
square_bits zero zero i = low_bits 3 3 ++ low_bits 2 3
square_bits zero (suc c) i = low_bits 2 0
square_bits (suc n) c i = low_bits 2 0

abbrev square_reader : LJpegBitReader
square_reader = new_reader (0x78 ∷ 0 ∷ 0xff ∷ 0xd9 ∷ [])

square_reader-IsBefore :
    IsBefore 0xd9 [] (rows_bits square_bits 1 2 2 0 ++ low_bits 5 0) square_reader
unfolding new_reader
square_reader-IsBefore = record {
  ws = 0x78 ∷ 0 ∷ [];
  at = record { left = refl; words = omega arith };
  cap = omega arith;
  padding = 0;
  held = refl;
}

-- The code 011 of 2, and the code 00 of 0.
three_more : IsSent table (pos 4) 7 (low_bits 3 3 ++ low_bits 2 3)
unfolding ◌+ℤ◌ as_u16
three_more =
    IsSent.differing (pos 3) 2 (low_bits 3 3) luminance.decodes.1.1.0 (omega arith) (omega arith)
      (omega arith) refl refl

as_before : IsSent table (pos 7) 7 (low_bits 2 0)
unfolding ◌+ℤ◌ as_u16
as_before = IsSent.equal (low_bits 2 0) luminance.decodes.0 refl refl

square-IsPicture : IsPicture 0xd9 [] square (λ _. table) sevens square_bits
unfolding predictor
square-IsPicture = record {
  wide = omega arith;
  high = omega arith;
  some_comps = omega arith;
  no_restarts = refl;
  precise = omega arith;
  tables = square_tables;
  first_start = λ i h. three_more;
  first_row = first_row;
  row_starts = λ n i h k. as_before;
  rows = λ n c i h low k l. as_before;
}
  where
    square_tables : (i : ℕ) → i < 1 → checked_table_of square i ≡ ok table
    square_tables zero h = unfold checked_table_of table_of index in refl
    square_tables (suc i) h = absurd (omega arith)

    first_row : (c i : ℕ) → 1 ≤ c → c < 2 → i < 1 → IsSent table (pos 7) 7 (square_bits 0 c i)
    first_row zero i low h k = absurd (omega arith)
    first_row (suc c) i low h k = as_before

rows-IsReady : IsReady 0xd9 [] square (λ _. table) sevens square_bits rows fives
rows-IsReady = record { apart = omega arith; above = rows_start.above; here = rows_start.here }

abbrev paper : SlicedBuffer ℕ
paper = record {
  buffer = 0 ∷ 0 ∷ 0 ∷ 0 ∷ [];
  width = 2;
  height = 2;
  slices = 2 ∷ [];
  slice = 0;
  slice_offset = 0;
  slice_width = 2;
  row_offset = 0;
  pos = 0;
}

decode_image-IsDecodedImage_example :
    IsDecodedImage 0xd9 [] square
      (λ _. table)
      sevens
      square_bits
      (7 ∷ 7 ∷ 7 ∷ 7 ∷ [])
      paper
      (low_bits 5 0)
      (decode_image (record { dc = square; row = (rows, square_reader); output = paper }))
decode_image-IsDecodedImage_example =
    decode_image-IsDecodedImage 0xd9 [] square (λ _. table) sevens square_bits fives rows
      square_reader (low_bits 5 0) paper (omega arith) square-IsPicture rows-IsReady
      square_reader-IsBefore
