-- ===== src/Nikon/Quantized/Examples.antt =====
-- A picture of one row, read by a reader that is its bits.
use libopenraw.Prelude.{
  ℕ, ◌^◌, ◌-ℤ◌, ◌≡◌, ◌≤◌, refl, sym, subst, inr, Bool, true, false, List, [], ◌∷◌, length,
  length-replicate, replicate, ok, arith,
}
use libopenraw.BitSource.{list_reader}
use libopenraw.BitSource.ListReader.{list_reader-IsBitReader}
use libopenraw.Nikon.Tables.{lossy_12bit}
use libopenraw.Nikon.Cfa.{new_cfa, next_column}
use libopenraw.Nikon.Cfa.Samples.{Encodes, done, more, after_sample}
use libopenraw.Nikon.Quantized.{decompress_quantized}
use libopenraw.Nikon.Quantized.Picture.{picture_of, decompress_quantized-Encodes}

abbrev start : List (List ℕ)
start = (0 ∷ 0 ∷ []) ∷ (0 ∷ 0 ∷ []) ∷ []

-- The path 00 announces 5 bits.
abbrev sample_bits : List Bool
sample_bits =
    false ∷ false ∷ true ∷ false ∷ false ∷ false ∷ false ∷ false ∷ false ∷ true ∷ false ∷ false
    ∷ false ∷ true ∷ []

sample_bits-Encodes : Encodes lossy_12bit (new_cfa 2 start) (16 ∷ 17 ∷ []) sample_bits
unfolding new_cfa next_column ◌-ℤ◌
sample_bits-Encodes =
    more {it = new_cfa 2 start} 16 (false ∷ false ∷ []) 5 (omega arith) (omega arith)
      (inr (omega arith, omega arith)) refl
      (more {it = after_sample (new_cfa 2 start) 16} 17 (false ∷ false ∷ []) 5 (omega arith)
        (omega arith) (inr (omega arith, omega arith)) refl done refl)
      refl

abbrev flat : List ℕ
flat = replicate 0x8000 7

long_enough : 2 ^ 14 ≤ length flat
long_enough = subst (λ n. 2 ^ 14 ≤ n) (sym (length-replicate {A = ℕ} 0x8000 7)) (omega arith)

decompress_quantized-Encodes_example :
    decompress_quantized list_reader lossy_12bit start flat 12 1 2 (0x20 ∷ 0x44 ∷ [])
    ≡ ok (picture_of flat 12 ((16 ∷ 17 ∷ []) ∷ []))
decompress_quantized-Encodes_example =
    decompress_quantized-Encodes list_reader list_reader-IsBitReader lossy_12bit start flat 12 2
      ((16 ∷ 17 ∷ []) ∷ []) (0x20 ∷ 0x44 ∷ []) sample_bits (false ∷ false ∷ []) refl
      (refl, (refl, tt)) long_enough (omega arith) (omega arith) (omega arith) (refl, tt)
      sample_bits-Encodes refl
