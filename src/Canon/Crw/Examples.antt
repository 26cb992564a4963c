-- ===== src/Canon/Crw/Examples.antt =====
-- A picture of 8 by 8 samples, and the theorems at concrete inputs.
use libopenraw.Prelude.{
  ℕ, ◌≡◌, refl, true, false, Bool, List, [], ◌∷◌, ◌++◌, length-append, length-replicate, replicate,
  drop, take, ok, panic, pos, ◌-ℤ◌, some, arith, Safely, ◌<◌, ◌^◌, All, All-replicate,
}
use libopenraw.BitSource.{bytes_bits, low_bits, value_of, stuff}
use libopenraw.Io.{View}
use libopenraw.Canon.Crw.{scan, decompress_crw}
use libopenraw.Canon.Crw.Tree.{make_decoder, start_state, blank_node}
use libopenraw.Canon.Crw.Tree.Rounds.{make_decoder_levels}
use libopenraw.Canon.Crw.Pump.{Pumped, get_bits}
use libopenraw.Canon.Crw.Pump.Bits.{HasBits, get_bits-HasBits}
use libopenraw.Canon.Crw.Tokens.{Decompress, decoder_at, new_decompress, read_tokens}
use libopenraw.Canon.Crw.Tokens.Safe.{IsBlock, read_tokens-Safely}
use libopenraw.Canon.Crw.Sums.{merge_low}
use libopenraw.Canon.Crw.Sums.LowBits.{merge_low-with_low}
use libopenraw.Canon.Crw.Tokens.Trees.{leaf_at, IsDecompressor, new_decompress-IsDecompressor}
use libopenraw.Canon.Crw.Tokens.Coded.{Codes, ended, sent}
use libopenraw.Canon.Crw.Sums.Deltas.{deltas, less_carry}
use libopenraw.Canon.Crw.Picture.{finished, block, IsFileOf, decompress_crw-Encodes}

small : IsDecompressor 0 8 8 (new_decompress 0 8 8)
small = new_decompress-IsDecompressor 0 8 8

abbrev crw : Decompress
crw = record {
  width = 8;
  height = 8;
  first_decoder = small.made.first_decoder;
  second_decoder = small.made.second_decoder;
}

-- A row that starts with 513, and every other sample of it; all else is 512.
abbrev picture : List ℕ
picture = 513 ∷ 512 ∷ 513 ∷ 512 ∷ 513 ∷ 512 ∷ 513 ∷ 512 ∷ replicate 56 512

-- In the first tree 1101 is the size 1, in the second one 111111011 is the end of the block.
abbrev one_bit_code : List Bool
one_bit_code = true ∷ true ∷ false ∷ true ∷ []

abbrev end_code : List Bool
end_code = true ∷ true ∷ true ∷ true ∷ true ∷ true ∷ false ∷ true ∷ true ∷ []

abbrev words : List ℕ
words = 0xdf ∷ 0xec ∷ 0xff ∷ 0 ∷ 0 ∷ 0 ∷ []

abbrev file : View
file = record { bytes = replicate 514 0 ++ (stuff words ++ replicate 16000 0); pos = 0 }

file-IsFileOf : IsFileOf file (replicate 514 0) words (replicate 16000 0)
unfolding scan
file-IsFileOf = record {
  parts = refl;
  size = refl;
  long = omega (
    arith,
    length-append (replicate 514 0) (stuff words ++ replicate 16000 0),
    length-append (stuff words) (replicate 16000 0),
    length-replicate {A = ℕ} 514 0,
    length-replicate {A = ℕ} 16000 0,
  );
  clean = refl;
  words =
      (omega arith, (omega arith, (omega arith, (omega arith, (omega arith, (omega arith, tt))))));
}

one_bit_code_leaf : leaf_at (decoder_at crw 0) 0 one_bit_code ≡ some 1
unfolding decoder_at
one_bit_code_leaf = small.first.decodes.1.1.1.1.1.1.0

end_code_leaf : leaf_at (decoder_at crw 1) 0 end_code ≡ some 0
unfolding decoder_at
end_code_leaf = small.second.decodes.1.1.1.1.1.1.1.1.1.1.1.1.1.1.1.0

picture-Codes :
    Codes crw 0 (less_carry (pos 0) (deltas 8 0 0 0 picture)) (one_bit_code ++ (true ∷ end_code))
unfolding ◌-ℤ◌
picture-Codes =
    sent 0 1 (pos 1) one_bit_code (omega arith) (omega arith) (omega arith, omega arith)
      (omega arith) one_bit_code_leaf (ended 62 (omega arith) end_code_leaf refl) refl refl

all_small : (n x : ℕ) → x < 2 ^ 16 → All (λ y. y < 2 ^ 16) (replicate n x)
all_small n x h = All-replicate (λ y. y < 2 ^ 16) n x h

decompress_crw-Encodes_example :
    decompress_crw crw file
    ≡ ok (record { width = 8; height = 8; bpc = 10; pixels = picture ++ [] })
decompress_crw-Encodes_example =
    decompress_crw-Encodes crw file (replicate 514 0) words (replicate 16000 0) (picture ∷ [])
      (one_bit_code ++ (true ∷ end_code)) (drop 14 (bytes_bits words)) file-IsFileOf
      (block refl
        (
          omega arith,
          (
            omega arith,
            (
              omega arith,
              (
                omega arith,
                (
                  omega arith,
                  (omega arith, (omega arith, (omega arith, all_small 56 512 (omega arith)))),
                ),
              ),
            ),
          ),
        )
        picture-Codes finished refl)
      refl (omega arith) (omega arith) (omega arith) (omega arith)

new_decompress-IsDecompressor_example : IsDecompressor 2 3072 2048 (new_decompress 7 3072 2048)
new_decompress-IsDecompressor_example = new_decompress-IsDecompressor 7 3072 2048

-- A pump with 25 bits in front of a stuffed byte: the bits go on behind the zero.
abbrev pumped : Pumped
pumped = (
  record { bitbuf = 5; vbits = 25 },
  record { bytes = 0xff ∷ 0 ∷ 1 ∷ 2 ∷ 3 ∷ 4 ∷ 5 ∷ 6 ∷ []; pos = 0 },
)

abbrev pumped_bits : List Bool
pumped_bits = low_bits 25 5 ++ bytes_bits (0xff ∷ 1 ∷ 2 ∷ 3 ∷ 4 ∷ 5 ∷ 6 ∷ [])

get_bits-HasBits_example :
    HasBits [] pumped.1.bytes
      (value_of (take 9 pumped_bits))
      (drop 9 pumped_bits)
      (get_bits (pos 9) pumped.0 pumped.1)
get_bits-HasBits_example =
    get_bits-HasBits [] pumped.1.bytes 9 pumped_bits pumped (omega arith) (omega arith)
      (record {
        ws = 0xff ∷ 1 ∷ 2 ∷ 3 ∷ 4 ∷ 5 ∷ 6 ∷ [];
        at = record {
          whole = refl;
          left = refl;
          words = (
            omega arith,
            (
              omega arith,
              (omega arith, (omega arith, (omega arith, (omega arith, (omega arith, tt))))),
            ),
          );
        };
        full = omega arith;
        cap = omega arith;
        rest = refl;
      })
      (omega arith)

read_tokens-Safely_example : Safely IsBlock (read_tokens crw 64 0 (replicate 64 (pos 0)) pumped)
read_tokens-Safely_example =
    read_tokens-Safely crw
      (record {
        first = small.first.inside;
        first_full = small.first.full;
        second = small.second.inside;
        second_full = small.second.full;
      })
      64 0 (replicate 64 (pos 0)) pumped refl (record { full = omega arith; cap = omega arith })

-- The low bits of the last four samples of a block.
merge_low-with_low_example :
    merge_low 1 60 (replicate 60 7 ++ (1 ∷ 2 ∷ 3 ∷ 4 ∷ [])) (record { bytes = 0xe4 ∷ []; pos = 0 })
    ≡ ok (replicate 60 7 ++ (8 ∷ 13 ∷ 18 ∷ 3 ∷ []), record { bytes = 0xe4 ∷ []; pos = 1 })
merge_low-with_low_example =
    merge_low-with_low 1 60 (replicate 60 7) (1 ∷ 2 ∷ 3 ∷ 4 ∷ []) (0xe4 ∷ []) []
      (record { bytes = 0xe4 ∷ []; pos = 0 }) refl refl refl refl refl

make_decoder_levels_example :
    make_decoder panic 17 (1 ∷ replicate 15 0 ++ 4 ∷ []) 0 start_state (replicate 3 blank_node) 0
    ≡ make_decoder
        (ok (start_state, []))
        17
        (1 ∷ replicate 15 0 ++ 4 ∷ [])
        0
        start_state
        (replicate 3 blank_node)
        0
make_decoder_levels_example =
    make_decoder_levels panic (ok (start_state, [])) 17 (1 ∷ replicate 15 0 ++ 4 ∷ []) 0 start_state
      (replicate 3 blank_node) 0 (omega arith) (omega arith)
