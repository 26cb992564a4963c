-- ===== src/Decompress/Blocks/Examples.antt =====
-- Pictures read from a few bytes.
use libopenraw.Prelude.{ℕ, ◌≡◌, refl, inl, List, [], ◌∷◌, ok, arith}
use libopenraw.Container.{little}
use libopenraw.Tiff.{uncompressed, nikon_pack}
use libopenraw.BitSource.{list_reader}
use libopenraw.BitSource.ListReader.{list_reader-IsBitReader}
use libopenraw.Decompress.Unpack.Layout.{be_bytes, Group, IsGroup}
use libopenraw.Decompress.Blocks.{unpack_from_reader}
use libopenraw.Decompress.Blocks.Rows.{IsBento, unpack_from_reader-bento}
use libopenraw.Decompress.Blocks.Packed.{unpack_from_reader-packed_row}

abbrev four_samples : List ℕ
four_samples = 1 ∷ 2 ∷ 3 ∷ 4 ∷ []

abbrev five_bytes : List ℕ
five_bytes = 0x00 ∷ 0x40 ∷ 0x20 ∷ 0x0c ∷ 0x04 ∷ []

unpack_from_reader-bento_example :
    unpack_from_reader list_reader 4 10 uncompressed little
      (0x00 ∷ 0x40 ∷ 0x20 ∷ 0x0c ∷ 0x04 ∷ 0x00 ∷ 0x40 ∷ 0x20 ∷ 0x0c ∷ 0x04 ∷ 0xff ∷ [])
      2
      11
    ≡ ok (1 ∷ 2 ∷ 3 ∷ 4 ∷ 1 ∷ 2 ∷ 3 ∷ 4 ∷ [])
unpack_from_reader-bento_example =
    unpack_from_reader-bento list_reader list_reader-IsBitReader 4 10 11 uncompressed little
      ((five_bytes, four_samples) ∷ (five_bytes, four_samples) ∷ []) (0xff ∷ []) (inl refl)
      (omega arith) (omega arith) (omega arith) (row, (row, tt))
  where
    row : IsBento 4 10 5 (five_bytes, four_samples)
    row = record {
      whole = refl;
      wide = refl;
      fits = (omega arith, (omega arith, (omega arith, (omega arith, tt))));
      rest = [];
      bits = refl;
    }

abbrev ten_samples : Group
ten_samples = record {
  pairs = (0x123, 0x456) ∷ (0x789, 0x0ab) ∷ (0xcde, 0xf12) ∷ (0x345, 0x678) ∷ (0x90a, 0xbcd) ∷ [];
  fill = 0 ∷ [];
}

five_pairs : IsGroup 1 ten_samples
five_pairs = record {
  five = refl;
  filled = refl;
  fits = (
    (omega arith, omega arith),
    (
      (omega arith, omega arith),
      ((omega arith, omega arith), ((omega arith, omega arith), ((omega arith, omega arith), tt))),
    ),
  );
}

unpack_from_reader-packed_row_example :
    unpack_from_reader list_reader 10 12 nikon_pack little
      (0x12 ∷ 0x34 ∷ 0x56 ∷ 0x78 ∷ 0x90 ∷ 0xAB ∷ 0xCD ∷ 0xEF ∷ 0x12 ∷ 0x34 ∷ 0x56 ∷ 0x78 ∷ 0x90
        ∷ 0xAB ∷ 0xCD ∷ 0x00 ∷ [])
      1
      16
    ≡ ok (0x123 ∷ 0x456 ∷ 0x789 ∷ 0x0ab ∷ 0xcde ∷ 0xf12 ∷ 0x345 ∷ 0x678 ∷ 0x90a ∷ 0xbcd ∷ [])
unfolding be_bytes
unpack_from_reader-packed_row_example =
    unpack_from_reader-packed_row list_reader 1 little ((ten_samples ∷ []) ∷ []) 16 [] (omega arith)
      (omega arith) (omega arith) ((refl, (five_pairs, tt)), tt)
