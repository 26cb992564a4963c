-- ===== src/Canon/Crw.antt =====
-- src/canon/crw/decompress.rs: the decompression of CRW pictures. Blocks of 64 samples are coded by
-- tokens of a tree, each with the zeros before a difference and its size.
pub mod Tables
pub mod Tree
pub mod Pump
pub mod Tokens
pub mod Sums
pub mod Picture
mod Examples
use libopenraw.Prelude.{
  ◌>>=◌, ◌>>◌, ℕ, zero, suc, ◌+◌, ◌-◌, ◌*◌, ◌/◌, Bool, true, false, ◌&&◌, not, List, [], ◌∷◌, ◌++◌,
  ◌==◌, ltb, if◌then◌else◌, drop, replicate, Result, ok, panic, ℤ, pos, negsuc,
}
use libopenraw.Io.{View, seek, view_read}
use libopenraw.Canon.Crw.Pump.{BitPump, get_bits, empty_pump}
use libopenraw.Canon.Crw.Tokens.{Decompress, read_tokens}
use libopenraw.Canon.Crw.Sums.{crw_u32, add_carry, add_up, add_lowbits}

-- The scan of `canon_has_lowbits`: whether a byte other than zero follows a byte 0xff.
unfoldable pub scan : List ℕ → Bool
scan [] = false
scan (a ∷ []) = false
scan (a ∷ b ∷ rest) = if (a == 0xff) && not (b == 0) then true else scan (b ∷ rest)

unfoldable pub canon_has_lowbits : View → Result (Bool × View)
canon_has_lowbits view = do
  v1 ← seek 0 view
  (test, v2) ← view_read (0x4000 - 26) v1
  ok (scan (drop 514 test), v2)

-- What the loop over the blocks keeps.
pub record Blocks : Type 0 where
  pub column : ℕ
  pub base : List ℤ
  pub carry : ℤ
  pub pixels : List ℕ
  pub pump : BitPump
  pub view : View

module _ (d : Decompress) (lowbits : Bool) where
  unfoldable pub read_block : Blocks → Result Blocks
  read_block s = do
    (diffs, (pump, view)) ← read_tokens d 64 0 (replicate 64 (pos 0)) (s.pump, s.view)
    (diffs', carry) ← add_carry diffs s.carry
    (out, base, column) ← add_up d.width 0 diffs' s.column s.base
    (out', view') ← add_lowbits lowbits column out view
    ok (record {
      column = column;
      base = base;
      carry = carry;
      pixels = s.pixels ++ out';
      pump = pump;
      view = view';
    })

  -- The loop over the blocks. A round passes 64 columns.
  unfoldable pub read_blocks : Result (List ℕ) → ℕ → ℕ → Blocks → Result (List ℕ)
  read_blocks late zero total s = late
  read_blocks late (suc left) total s = elim (ltb s.column total) [
    | false ↦ ok s.pixels
    | true ↦ do s' ← read_block s; read_blocks late left total s'
  ]

-- `RawImage::with_data16`: the picture, without the data that is the same for every one.
pub record CrwImage : Type 0 where
  pub width : ℕ
  pub height : ℕ
  pub bpc : ℕ
  pub pixels : List ℕ

-- `Decompress::decompress`; a seek past the end of the file is refused.
unfoldable pub decompress_crw : Decompress → View → Result CrwImage
decompress_crw d view = do
  (lowbits, v1) ← canon_has_lowbits view
  v2 ← seek (514 + (if lowbits then d.height * d.width / 4 else 0)) v1
  (zero_bits, (pump, v3)) ← get_bits (negsuc 0) empty_pump v2
  total ← crw_u32 (d.width * d.height)
  pixels ← read_blocks d lowbits panic (total / 64 + 2) total (record {
    column = 0;
    base = pos 0 ∷ pos 0 ∷ [];
    carry = pos 0;
    pixels = [];
    pump = pump;
    view = v3;
  })
  ok (record { width = d.width; height = d.height; bpc = 10; pixels = pixels })
