-- ===== src/Panasonic/Raw1/Examples.antt =====
-- A decoded group, and the theorems at concrete inputs.
use libopenraw.Prelude.{
  ℕ, ◌/◌, ◌%◌, ◌≡◌, ◌≢◌, refl, List, [], ◌∷◌, All, All-replicate, length, replicate, ok, err, index,
  update, unexpected_eof, arith,
}
use libopenraw.Panasonic.Raw1.{
  get, next, is_nonzero, set_nonzero, load_initial_px, pixel_value, store_px, decode_px,
  decode_groups, initial_px, decode_chunk, panasonic_raw1,
}
use libopenraw.Panasonic.Raw1.Bits.{IsByte}
use libopenraw.Panasonic.Raw1.Pixels.{IsDecoded, decode_chunk-IsDecoded}
use libopenraw.Panasonic.Raw1.Blocks.{IsPixels, panasonic_raw1_outcome}

abbrev group : List ℕ
group = 1 ∷ 2 ∷ 3 ∷ 4 ∷ 5 ∷ 6 ∷ 7 ∷ 8 ∷ 9 ∷ 10 ∷ 11 ∷ 12 ∷ 13 ∷ 14 ∷ 15 ∷ 16 ∷ []

zeros : decode_chunk (replicate 16 0) ≡ ok (replicate 14 0)
unfolding decode_chunk initial_px load_initial_px store_px decode_groups decode_px pixel_value next
    get is_nonzero set_nonzero index update
zeros = refl

decode_chunk-IsDecoded_example : IsDecoded (decode_chunk group)
decode_chunk-IsDecoded_example = decode_chunk-IsDecoded group refl (omega arith)

abbrev block : List ℕ
block = replicate 0x4000 7

block-IsByte : All IsByte block
block-IsByte = All-replicate IsByte 0x4000 7 (omega arith)

panasonic_raw1_outcome_example :
    (length block % 0x4000 ≢ 0 → panasonic_raw1 block ≡ err unexpected_eof)
    × (length block % 0x4000 ≡ 0 → IsPixels block 0 (length block / 16) (panasonic_raw1 block))
panasonic_raw1_outcome_example = panasonic_raw1_outcome block block-IsByte
