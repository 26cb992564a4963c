-- ===== src/Canon/Crw/Sums.antt =====
-- src/canon/crw/decompress.rs: the samples of a block from its differences, and their low bits.
pub mod Deltas
pub mod LowBits
use libopenraw.Prelude.{
  ◌>>=◌, ◌>>◌, ℕ, zero, suc, ◌+◌, ◌-◌, ◌*◌, ◌/◌, ◌%◌, ◌^◌, Bool, true, false, List, [], ◌∷◌, ◌==◌,
  leb, ltb, if◌then◌else◌, Result, ok, require, index, update, bit_and, shl, shr, ℤ, pos, ◌+ℤ◌,
  as_u16, above, below,
}
use libopenraw.Io.{View, seek}
use libopenraw.Canon.Crw.Pump.{view_u8}

-- Arithmetic on `i32` under overflow checks.
unfoldable pub as_i32 : ℤ → Result ℤ
as_i32 x = do require (ltb (above x) (2 ^ 31)); require (leb (below x) (2 ^ 31)); ok x

unfoldable pub crw_u32 : ℕ → Result ℕ
crw_u32 x = do require (ltb x (2 ^ 32)); ok x

-- `diffbuf[0] += carry`; the sum is the next carry.
unfoldable pub add_carry : List ℤ → ℤ → Result (List ℤ × ℤ)
add_carry diffbuf carry = do
  x ← index diffbuf 0
  y ← as_i32 (x +ℤ carry)
  diffbuf' ← update diffbuf 0 y
  ok (diffbuf', y)

abbrev pub row_start_base : ℕ → ℕ → List ℤ → List ℤ
row_start_base width column base = if column % width == 0 then pos 512 ∷ pos 512 ∷ [] else base

-- The loop that makes samples of differences: `outbuf`, `base` and `column` behind it.
unfoldable pub add_up : ℕ → ℕ → List ℤ → ℕ → List ℤ → Result (List ℕ × List ℤ × ℕ)
add_up width i [] column base = ok ([], base, column)
add_up width i (diff ∷ diffs) column base = do
  let start = row_start_base width column base
  column' ← crw_u32 (column + 1)
  b ← index start (i % 2)
  sum ← as_i32 (b +ℤ diff)
  base' ← update start (i % 2) sum
  (out, base'', column'') ← add_up width (i + 1) diffs column' base'
  ok (as_u16 sum ∷ out, base'', column'')

-- A sample with its two low bits, as the code puts them together.
unfoldable pub merged : List ℕ → ℕ → ℕ → ℕ → Result (List ℕ)
merged outbuf i c r = do
  next ← (if ltb i 63 then index outbuf (i + 1) else ok 0)
  update outbuf i (shl 16 next 2 + bit_and (shr c (r * 2)) 3)

-- The loops over 16 bytes and their four samples each.
unfoldable pub merge_low : ℕ → ℕ → List ℕ → View → Result (List ℕ × View)
merge_low zero i outbuf view = ok (outbuf, view)
merge_low (suc left) i outbuf view = do
  (c, view') ← view_u8 view
  o1 ← merged outbuf i c 0
  o2 ← merged o1 (i + 1) c 1
  o3 ← merged o2 (i + 2) c 2
  o4 ← merged o3 (i + 3) c 3
  merge_low left (i + 4) o4 view'

-- The low bits of the block that ends at `column`, from their own place in the file.
unfoldable pub add_lowbits : Bool → ℕ → List ℕ → View → Result (List ℕ × View)
add_lowbits false column outbuf view = ok (outbuf, view)
add_lowbits true column outbuf view = do
  v1 ← seek ((column - 64) / 4) view
  (out, v2) ← merge_low 16 0 outbuf v1
  v3 ← seek view.pos v2
  ok (out, v3)
