-- ===== src/Canon/Crw/Tokens.antt =====
-- src/canon/crw/decompress.rs: the trees of a decompressor, and the differences of a block from its
-- tokens.
pub mod Trees
pub mod Walk
pub mod Coded
pub mod Blocks
pub mod Safe
use libopenraw.Prelude.{
  ◌>>=◌, ◌>>◌, ℕ, zero, suc, ◌+◌, ◌-◌, ◌*◌, ◌/◌, ◌%◌, ◌^◌, true, false, ◌&&◌, not, List, ◌==◌, ltb,
  if◌then◌else◌, length, replicate, Result, ok, panic, index, update, bit_and, shr, ℤ, pos, ◌-ℤ◌,
}
use libopenraw.Canon.Crw.Tables.{first_tree, second_tree}
use libopenraw.Canon.Crw.Tree.{DecoderNode, branch_of, blank_node, start_state, make_decoder}
use libopenraw.Canon.Crw.Pump.{Pumped, get_bits}

-- The tree that `init_tables` makes in an array of `size` nodes. No code is longer than 16 bits, so
-- that 17 levels are enough.
unfoldable pub tree_of : List ℕ → ℕ → Result (List DecoderNode)
tree_of table size = do
  (state, dest) ← make_decoder panic 17 table 0 start_state (replicate size blank_node) 0
  ok dest

pub record Decompress : Type 0 where
  pub width : ℕ
  pub height : ℕ
  pub first_decoder : List DecoderNode
  pub second_decoder : List DecoderNode

-- `Decompress::new`, with `init_tables`
unfoldable pub new_decompress : ℕ → ℕ → ℕ → Result Decompress
new_decompress table width height = do
  let t = if ltb 2 table then 2 else table
  row1 ← index first_tree t
  first ← tree_of row1 32
  row2 ← index second_tree t
  second ← tree_of row2 512
  ok (record { width = width; height = height; first_decoder = first; second_decoder = second })

-- One bit down the tree, where the node has branches; `next` for the rounds that follow.
unfoldable pub down :
    DecoderNode → Pumped → (ℕ → Pumped → Result (ℕ × Pumped)) → Result (ℕ × Pumped)
down node (pump, view) next = elim (node.branch0 == 0) [
  | true ↦ ok (node.leaf, (pump, view))
  | false ↦ do
    (bit, pumped) ← get_bits (pos 1) pump view
    dindex ← branch_of node bit
    next dindex pumped
]

-- The loop from a node to a leaf. `late` is what it would give when its rounds run out.
unfoldable pub walk : Result (ℕ × Pumped) → ℕ → List DecoderNode → ℕ → Pumped → Result (ℕ × Pumped)
walk late zero decoder dindex p = late
walk late (suc left) decoder dindex p = do
  node ← index decoder dindex
  down node p (walk late left decoder)

-- Every round takes a bit of the pump or of the bytes that are left.
unfoldable pub walk_fuel : Pumped → ℕ
walk_fuel (pump, view) = pump.vbits + 8 * (length view.bytes - view.pos) + 1

unfoldable pub read_leaf : List DecoderNode → Pumped → Result (ℕ × Pumped)
read_leaf decoder p = walk panic (walk_fuel p) decoder 0 p

-- A difference of `len` bits: one that starts with a zero is negative.
unfoldable pub crw_diff : ℕ → ℕ → ℤ
crw_diff len bits =
    if bits / 2 ^ (len - 1) % 2 == 0 then pos bits -ℤ pos (2 ^ len - 1) else pos bits

unfoldable pub store_diff : List ℤ → ℕ → ℤ → Result (List ℤ)
store_diff diffbuf i diff = if ltb i 64 then update diffbuf i diff else ok diffbuf

-- The difference of a leaf, with the place behind it.
unfoldable pub read_diff : ℕ → ℕ → List ℤ → Pumped → Result (ℕ × List ℤ × Pumped)
read_diff leaf i diffbuf (pump, view) =
    let len = bit_and leaf 15 in
    let j = i + shr leaf 4 in
    if leaf == 0xff
    then ok (i + 1, diffbuf, (pump, view))
    else (if len == 0 then ok (j + 1, diffbuf, (pump, view)) else (do
      (bits, pumped) ← get_bits (pos len) pump view
      diffbuf' ← store_diff diffbuf j (crw_diff len bits)
      ok (j + 1, diffbuf', pumped)))

-- A round behind its leaf, with `next` for the rounds that follow.
unfoldable pub with_leaf :
    ℕ
    → ℕ
    → List ℤ
    → Pumped
    → (ℕ → List ℤ → Pumped → Result (List ℤ × Pumped))
    → Result (List ℤ × Pumped)
with_leaf leaf i diffbuf p next =
    if (leaf == 0) && not (i == 0)
    then ok (diffbuf, p)
    else (do (j, diffbuf', p') ← read_diff leaf i diffbuf p; next j diffbuf' p')

module _ (d : Decompress) where
  -- The first token of a block is in the first tree.
  unfoldable pub decoder_at : ℕ → List DecoderNode
  decoder_at i = if i == 0 then d.first_decoder else d.second_decoder

  -- The loop over the places of a block. A round passes a place at least, so that 64 rounds pass 63.
  unfoldable pub read_tokens : ℕ → ℕ → List ℤ → Pumped → Result (List ℤ × Pumped)
  read_tokens zero i diffbuf p = ok (diffbuf, p)
  read_tokens (suc left) i diffbuf p = elim (ltb i 64) [
    | false ↦ ok (diffbuf, p)
    | true ↦ do
      (leaf, p') ← read_leaf (decoder_at i) p
      with_leaf leaf i diffbuf p' (read_tokens left)
  ]
