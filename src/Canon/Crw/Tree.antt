-- ===== src/Canon/Crw/Tree.antt =====
-- src/canon/crw/decompress.rs: `make_decoder`, which builds a decode tree in an array.
pub mod Rounds
use libopenraw.Prelude.{
  ◌>>=◌, ◌>>◌, ℕ, zero, suc, ◌+◌, true, false, List, leb, ltb, if◌then◌else◌, Result, ok, panic,
  index, update,
}

pub record DecoderNode : Type 0 where
  pub branch0 : ℕ
  pub branch1 : ℕ
  pub leaf : ℕ

-- `DecoderNode::default()`
abbrev pub blank_node : DecoderNode
blank_node = record { branch0 = 0; branch1 = 0; leaf = 0 }

-- `node.branch[bit]`
unfoldable pub branch_of : DecoderNode → ℕ → Result ℕ
branch_of node zero = ok node.branch0
branch_of node (suc zero) = ok node.branch1
branch_of node (suc (suc bit)) = panic

pub record State : Type 0 where
  pub free : ℕ
  pub leaf : ℕ

-- `State::default()`
abbrev pub start_state : State
start_state = record { free = 0; leaf = 0 }

-- The loop over the counts of the codes, until they pass the leaf.
unfoldable pub count_codes : ℕ → List ℕ → ℕ → ℕ → ℕ → Result (ℕ × ℕ)
count_codes zero table leaf i next = ok (i, next)
count_codes (suc left) table leaf i next =
    if leb i leaf
    then (do n ← index table next; count_codes left table leaf (i + n) (next + 1))
    else ok (i, next)

unfoldable pub set_branch0 : List DecoderNode → ℕ → ℕ → Result (List DecoderNode)
set_branch0 dest idx v = do node ← index dest idx; update dest idx (record node { branch0 = v })

unfoldable pub set_branch1 : List DecoderNode → ℕ → ℕ → Result (List DecoderNode)
set_branch1 dest idx v = do node ← index dest idx; update dest idx (record node { branch1 = v })

unfoldable pub set_leaf : List DecoderNode → ℕ → ℕ → Result (List DecoderNode)
set_leaf dest idx v = do node ← index dest idx; update dest idx (record node { leaf = v })

abbrev pub Made : Type 0
Made = Result (State × List DecoderNode)

-- A node with two subtrees, which `below` makes in the place that it is given.
unfoldable pub make_branches :
    (State → List DecoderNode → ℕ → Made) → State → List DecoderNode → ℕ → Made
make_branches below state dest idx = do
  d1 ← set_branch0 dest idx state.free
  (s1, d2) ← below state d1 state.free
  d3 ← set_branch1 d2 idx s1.free
  below s1 d3 s1.free

unfoldable pub make_leaf : List ℕ → State → List DecoderNode → ℕ → Made
make_leaf table state dest idx = do
  v ← index table (16 + state.leaf)
  d ← set_leaf dest idx v
  ok (record state { leaf = state.leaf + 1 }, d)

unfoldable pub branches_or_leaf :
    (State → List DecoderNode → ℕ → Made) → List ℕ → State → List DecoderNode → ℕ → ℕ → ℕ → Made
branches_or_leaf below table state dest idx level next = elim (ltb level next) [
  | true ↦ make_branches below state dest idx
  | false ↦ make_leaf table state dest idx
]

-- What the function does behind the counts.
unfoldable pub make_node :
    (State → List DecoderNode → ℕ → Made) → List ℕ → State → List DecoderNode → ℕ → ℕ → ℕ × ℕ → Made
make_node below table state dest idx level (i, next) = elim (ltb state.leaf i) [
  | true ↦ branches_or_leaf below table state dest idx level next
  | false ↦ ok (state, dest)
]

-- `make_decoder`. `late` is what it would give when the levels run out.
unfoldable pub make_decoder : Made → ℕ → List ℕ → ℕ → State → List DecoderNode → ℕ → Made
make_decoder late zero table level state dest idx = late
make_decoder late (suc levels) table level state dest idx = do
  let s = record state { free = state.free + 1 }
  counted ← count_codes 16 table s.leaf 0 0
  make_node (make_decoder late levels table (level + 1)) table s dest idx level counted
