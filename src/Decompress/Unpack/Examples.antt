-- ===== src/Decompress/Unpack/Examples.antt =====
-- The tests of src/decompress.rs, and the theorems at concrete inputs.
use libopenraw.Prelude.{ℕ, ◌≡◌, refl, inr, List, [], ◌∷◌, ◌++◌, ok, index, arith}
use libopenraw.Tiff.{nikon_pack, uncompressed}
use libopenraw.Decompress.Unpack.{
  unpack_triples, unpack_groups, unpack_12to16, be_pair, le_pair, be_pad, le_pad, unpack_be12to16,
  unpack_le12to16,
}
use libopenraw.Decompress.Unpack.Layout.{be_bytes, Group, pack_pairs, pack_groups, samples}
use libopenraw.Decompress.Unpack.RoundTrip.{be_unpack-pack}

-- `test_unpack`, its first 16 bytes.
abbrev packed : List ℕ
packed =
    0x12 ∷ 0x34 ∷ 0x56 ∷ 0x78 ∷ 0x90 ∷ 0xAB ∷ 0xCD ∷ 0xEF ∷ 0x12 ∷ 0x34 ∷ 0x56 ∷ 0x78 ∷ 0x90 ∷ 0xAB
    ∷ 0xCD ∷ 0x00 ∷ []

test_unpack :
    unpack_be12to16 packed [] nikon_pack
    ≡ ok (10, 0x123 ∷ 0x456 ∷ 0x789 ∷ 0x0ab ∷ 0xcde ∷ 0xf12 ∷ 0x345 ∷ 0x678 ∷ 0x90a ∷ 0xbcd ∷ [])
unfolding unpack_be12to16 unpack_12to16 unpack_groups unpack_triples be_pair be_pad index
test_unpack = refl

test_unpack2 :
    unpack_be12to16 (0x12 ∷ 0x34 ∷ 0x56 ∷ []) [] uncompressed ≡ ok (2, 0x123 ∷ 0x456 ∷ [])
unfolding unpack_be12to16 unpack_12to16 unpack_groups unpack_triples be_pair be_pad index
test_unpack2 = refl

unpack_le : unpack_le12to16 (0x12 ∷ 0x34 ∷ 0x56 ∷ []) [] uncompressed ≡ ok (2, 0x412 ∷ 0x563 ∷ [])
unfolding unpack_le12to16 unpack_12to16 unpack_groups unpack_triples le_pair le_pad index
unpack_le = refl

abbrev pairs : List (ℕ × ℕ)
pairs = (0x123, 0x456) ∷ (0x789, 0x0ab) ∷ (0xcde, 0xf12) ∷ (0x345, 0x678) ∷ (0x90a, 0xbcd) ∷ []

abbrev padded : Group
padded = record { pairs = pairs; fill = 0 ∷ [] }

be_unpack-pack_example :
    unpack_be12to16
      (pack_groups be_bytes (padded ∷ []) ++ pack_pairs be_bytes [])
      (7 ∷ [])
      nikon_pack
    ≡ ok (10, 7 ∷ samples pairs)
be_unpack-pack_example =
    be_unpack-pack nikon_pack (padded ∷ []) [] (7 ∷ []) (unfold be_pad in omega arith) tt
      (omega arith) (inr (unfold be_pad in (refl, refl)))
