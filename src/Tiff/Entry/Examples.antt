-- ===== src/Tiff/Entry/Examples.antt =====
-- The numbers of small entries.
use libopenraw.Prelude.{◌≡◌, ◌≢◌, refl, inl, [], ◌∷◌, some, ok, panic, arith}
use libopenraw.Container.{unset, big}
use libopenraw.Io.{big_endian, endian_of}
use libopenraw.Io.ByteReader.{byte_reader, byte_reader-IsByteOrder}
use libopenraw.Tiff.Entry.{Entry, external, as_slice, uint_value_array, uint_value_at_index}
use libopenraw.Tiff.Entry.Rationals.{uint_value_at_index-rational}
use libopenraw.Tiff.Entry.Values.{uint_value_array-packed}

abbrev three_shorts : Entry
three_shorts = record {
  id = 0x102;
  type_ = 3;
  count = 3;
  data_bytes = external (0 ∷ 8 ∷ 1 ∷ 2 ∷ 0 ∷ 8 ∷ []);
}

is_set : big ≢ unset
is_set e = cc

uint_value_array-packed_example :
    uint_value_array byte_reader three_shorts (endian_of big_endian) ≡ ok (some (8 ∷ 258 ∷ 8 ∷ []))
unfolding as_slice
uint_value_array-packed_example =
    uint_value_array-packed byte_reader byte_reader-IsByteOrder big_endian three_shorts
      (8 ∷ 258 ∷ 8 ∷ []) [] refl (inl (refl, (omega arith, (omega arith, (omega arith, tt))), refl))

-- The rational 5/0.
abbrev no_denominator : Entry
no_denominator = record {
  id = 0x11a;
  type_ = 5;
  count = 1;
  data_bytes = external (0 ∷ 0 ∷ 0 ∷ 5 ∷ 0 ∷ 0 ∷ 0 ∷ 0 ∷ []);
}

uint_value_at_index-rational_example :
    uint_value_at_index byte_reader big_endian no_denominator 0 ≡ panic
unfolding as_slice
uint_value_at_index-rational_example =
    uint_value_at_index-rational byte_reader byte_reader-IsByteOrder big_endian no_denominator 0 5 0
      [] refl (omega arith) (omega arith) (omega arith) refl
