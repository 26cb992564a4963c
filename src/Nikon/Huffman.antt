-- ===== src/Nikon/Huffman.antt =====
-- src/nikon/huffman.rs: decoding by a tree in a table. At a node that is no leaf the bit 1 leads to
-- the index that the node holds, and the bit 0 to the next index.
use libopenraw.Prelude.{
  ℕ, zero, suc, ◌+◌, Bool, true, false, List, ◌==◌, Result, ok, panic, ◌>>=◌, index, if◌then◌else◌,
}
use libopenraw.BitSource.{BitReaderCrate}

abbrev pub HuffmanNode : Type 0
HuffmanNode = Bool × ℕ

module _ (c : BitReaderCrate) (table : List HuffmanNode) where
  -- Where the loop goes from a node, with `next` for the rounds that follow.
  unfoldable pub at_node :
      HuffmanNode → ℕ → c.State → (ℕ → c.State → Result (ℕ × c.State)) → Result (ℕ × c.State)
  at_node (true, v) cur s next = ok (v, s)
  at_node (false, v) cur s next = do
    (bit, s') ← c.read 8 1 s
    next (if bit == 0 then cur + 1 else v) s'

  -- Each round reads a bit, and reading fails at the end. `late` is what the loop would give when its
  -- rounds run out.
  unfoldable pub walk : Result (ℕ × c.State) → ℕ → ℕ → c.State → Result (ℕ × c.State)
  walk late zero cur s = late
  walk late (suc left) cur s = do node ← index table cur; at_node node cur s (walk late left)

  -- `HuffmanDecoder::decode`
  unfoldable pub decode : c.State → Result (ℕ × c.State)
  decode s = walk panic (c.remaining s + 1) 0 s
