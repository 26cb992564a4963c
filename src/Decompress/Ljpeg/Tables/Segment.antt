-- ===== src/Decompress/Ljpeg/Tables/Segment.antt =====
-- The table of the JPEG standard for the differences of luminance, as a segment holds it.
use libopenraw.Prelude.{
  ℕ, ◌<◌, refl, List, [], ◌∷◌, ◌++◌, All-append, All-replicate, replicate, arith,
}
use libopenraw.Decompress.Ljpeg.Huffman.{HuffmanTable, default_table, fix}
use libopenraw.Decompress.Ljpeg.Tables.Fixed.{IsFilled, IsFixed, fix-IsFixed}

abbrev symbols : List ℕ
symbols = 0 ∷ 1 ∷ 2 ∷ 3 ∷ 4 ∷ 5 ∷ 6 ∷ 7 ∷ 8 ∷ 9 ∷ 10 ∷ 11 ∷ []

abbrev pub segment : HuffmanTable
segment = record default_table {
  bits = 0 ∷ 0 ∷ 1 ∷ 5 ∷ 1 ∷ 1 ∷ 1 ∷ 1 ∷ 1 ∷ 1 ∷ 0 ∷ 0 ∷ 0 ∷ 0 ∷ 0 ∷ 0 ∷ 0 ∷ [];
  huffval = symbols ++ replicate 244 0;
}

pub segment-IsFilled : IsFilled segment
segment-IsFilled = record {
  counts = refl;
  symbols = refl;
  bytes =
      All-append (λ s. s < 256) symbols (replicate 244 0) (omega arith)
        (All-replicate (λ s. s < 256) 244 0 (omega arith));
  fits = omega arith;
  total = omega arith;
  codes = refl;
  places = refl;
  firsts = refl;
  lasts = refl;
  values = refl;
}

-- The table that `fix` makes of it.
abbrev pub luminance : IsFixed segment.bits segment.huffval (fix segment)
luminance = fix-IsFixed segment segment-IsFilled
