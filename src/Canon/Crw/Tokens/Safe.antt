-- ===== src/Canon/Crw/Tokens/Safe.antt =====
-- Reading a block never panics, whatever the file holds.
use libopenraw.Prelude.{
  ℕ, zero, suc, ◌+◌, ◌^◌, ◌≤◌, ◌<◌, ◌≡◌, ◌∙◌, inl, inr, Bool-cases, List, ◌==◌, ◌&&◌, not, ltb,
  ltb→lt, length, length-set, get_or, All, All-get_or, Result, ok, panic, ◌>>=◌, index_lem,
  update_lem, Safely, Safely-bind, bit_and, bit_and_mask, shr, ℤ, pos, arith,
}
use libopenraw.Canon.Crw.Tree.{DecoderNode, branch_of, blank_node}
use libopenraw.Canon.Crw.Pump.{Pumped, get_bits}
use libopenraw.Canon.Crw.Pump.Safe.{IsPrimed, room, get_bits-Safely}
use libopenraw.Canon.Crw.Tokens.{
  Decompress, down, walk, walk_fuel, read_leaf, crw_diff, store_diff, read_diff, with_leaf,
  decoder_at, read_tokens,
}
use libopenraw.Canon.Crw.Tokens.Trees.{IsInside}

abbrev IsLeaf : ℕ × Pumped → Type 0
IsLeaf r = (r.0 < 256) × IsPrimed r.1

branch_of-Safely :
    (size : ℕ) (node : DecoderNode) (bit : ℕ)
    → IsInside size node
    → bit < 2
    → Safely (λ d. d < size) (branch_of node bit)
unfolding branch_of
branch_of-Safely size node zero inside h = inside.left
branch_of-Safely size node (suc zero) inside h = inside.right
branch_of-Safely size node (suc (suc bit)) inside h = absurd (omega (arith, h))

-- A round of the walk, where the rounds that follow are safe from any node and with a bit less.
down-Safely :
    (size : ℕ) (node : DecoderNode) (p : Pumped) (next : ℕ → Pumped → Result (ℕ × Pumped))
    → IsInside size node
    → IsPrimed p
    → ((d : ℕ) (p' : Pumped)
        → d < size
        → IsPrimed p'
        → room p' + 1 ≤ room p
        → Safely IsLeaf (next d p'))
    → Safely IsLeaf (down node p next)
unfolding down
down-Safely size node (pump, view) next inside primed rec = elim (Bool-cases (node.branch0 == 0)) [
  | inl e ↦ rw (e, down) (inside.byte, primed)
  | inr e ↦
      rw (e, down)
        (Safely-bind (λ r. (r.0 < 2 ^ 1) × IsPrimed r.1 × (room r.1 + 1 ≤ room (pump, view))) IsLeaf
          (get_bits (pos 1) pump view) (λ r. do d ← branch_of node r.0; next d r.1)
          (get_bits-Safely 1 (pump, view) (omega arith) (omega arith) primed)
          (λ r got.
            Safely-bind (λ d. d < size) IsLeaf (branch_of node r.0) (λ d. next d r.1)
              (branch_of-Safely size node r.0 inside got.0) (λ d here. rec d r.1 here got.1 got.2)))
]

-- The loop from a node to a leaf: it has a round for every bit that can be read.
walk-Safely :
    (size : ℕ) (tree : List DecoderNode) (left d : ℕ) (p : Pumped)
    → All (IsInside size) tree
    → length tree ≡ size
    → d < size
    → IsPrimed p
    → room p < left
    → Safely IsLeaf (walk panic left tree d p)
unfolding walk
walk-Safely size tree zero d p inside full here primed enough = absurd (omega (arith, enough))
walk-Safely size tree (suc left) d p inside full here primed enough =
    let node = get_or tree d blank_node in
    rw (index_lem tree d blank_node (omega (arith, here, full))) (
      down-Safely size node p (walk panic left tree)
        (All-get_or (IsInside size) tree d blank_node inside (omega (arith, here, full))) primed
        (λ d' p' here' primed' less.
          walk-Safely size tree left d' p' inside full here' primed' (omega (arith, enough, less))))

read_leaf-Safely :
    (size : ℕ) (tree : List DecoderNode) (p : Pumped)
    → All (IsInside size) tree
    → length tree ≡ size
    → 0 < size
    → IsPrimed p
    → Safely IsLeaf (read_leaf tree p)
unfolding read_leaf walk_fuel
read_leaf-Safely size tree p inside full some_nodes primed =
    walk-Safely size tree (walk_fuel p) 0 p inside full some_nodes primed (omega arith)

-- The state behind a leaf: the place went on, and the block keeps its length.
abbrev IsNext : ℕ → ℕ × List ℤ × Pumped → Type 0
IsNext i r = (i < r.0) × (length r.1 ≡ 64) × IsPrimed r.2

store_diff-Safely :
    (buf : List ℤ) (j : ℕ) (x : ℤ)
    → length buf ≡ 64
    → Safely (λ b. length b ≡ 64) (store_diff buf j x)
unfolding store_diff
store_diff-Safely buf j x full = elim (Bool-cases (ltb j 64)) [
  | inr e ↦ rw e full
  | inl e ↦
      rw (e, update_lem buf j x (omega (arith, ltb→lt j 64 e, full))) (length-set buf j x ∙ full)
]

read_diff-Safely :
    (leaf i : ℕ) (buf : List ℤ) (p : Pumped)
    → leaf < 256
    → length buf ≡ 64
    → IsPrimed p
    → Safely (IsNext i) (read_diff leaf i buf p)
unfolding read_diff
read_diff-Safely leaf i buf (pump, view) byte full primed = elim (Bool-cases (leaf == 0xff)) [
  | inl e ↦ rw e (omega arith, full, primed)
  | inr e ↦ elim (Bool-cases (bit_and leaf 15 == 0)) [
    | inl f ↦ rw (e, f) (omega arith, full, primed)
    | inr f ↦
        let len = bit_and leaf 15 in
        let some_bits : 1 ≤ len = ground (arith, f) in
        let few : len ≤ 25 = omega (arith, bit_and_mask 4 leaf) in
        let j = i + shr leaf 4 in
        rw (e, f)
          (Safely-bind (λ r. (r.0 < 2 ^ len) × IsPrimed r.1 × (room r.1 + len ≤ room (pump, view)))
            (IsNext i) (get_bits (pos len) pump view)
            (λ r. do buf' ← store_diff buf j (crw_diff len r.0); ok (j + 1, buf', r.1))
            (get_bits-Safely len (pump, view) some_bits few primed)
            (λ r got.
              Safely-bind (λ b. length b ≡ 64) (IsNext i) (store_diff buf j (crw_diff len r.0))
                (λ buf'. ok (j + 1, buf', r.1)) (store_diff-Safely buf j (crw_diff len r.0) full)
                (λ b size. (omega arith, size, got.1))))
  ]
]

-- Both trees of a decompressor stay in their arrays.
pub record HasTrees (d : Decompress) : Type 0 where
  pub first : All (IsInside 32) d.first_decoder
  pub first_full : length d.first_decoder ≡ 32
  pub second : All (IsInside 512) d.second_decoder
  pub second_full : length d.second_decoder ≡ 512

abbrev pub IsBlock : List ℤ × Pumped → Type 0
IsBlock r = (length r.0 ≡ 64) × IsPrimed r.1

with_leaf-Safely :
    (leaf i : ℕ) (buf : List ℤ) (p : Pumped) (next : ℕ → List ℤ → Pumped → Result (List ℤ × Pumped))
    → leaf < 256
    → length buf ≡ 64
    → IsPrimed p
    → ((j : ℕ) (b : List ℤ) (p' : Pumped)
        → i < j
        → length b ≡ 64
        → IsPrimed p'
        → Safely IsBlock (next j b p'))
    → Safely IsBlock (with_leaf leaf i buf p next)
unfolding with_leaf
with_leaf-Safely leaf i buf p next byte full primed rec =
    elim (Bool-cases ((leaf == 0) && not (i == 0))) [
      | inl e ↦ rw e (full, primed)
      | inr e ↦ rw e (
          Safely-bind (IsNext i) IsBlock (read_diff leaf i buf p) (λ r. next r.0 r.1 r.2)
            (read_diff-Safely leaf i buf p byte full primed)
            (λ r got. rec r.0 r.1 r.2 got.0 got.1 got.2))
    ]

module _ (d : Decompress) (trees : HasTrees d) where
  decoder_at-Safely :
      (i : ℕ) (p : Pumped) → IsPrimed p → Safely IsLeaf (read_leaf (decoder_at d i) p)
  unfolding decoder_at
  decoder_at-Safely i p primed = elim (Bool-cases (i == 0)) [
    | inl e ↦
        rw e
          (read_leaf-Safely 32 d.first_decoder p trees.first trees.first_full (omega arith) primed)
    | inr e ↦ rw e (
        read_leaf-Safely 512 d.second_decoder p trees.second trees.second_full (omega arith) primed)
  ]

  -- From a full pump and a block of 64 differences, with trees that stay in their arrays, the loop
  -- over the tokens never panics, whatever the file holds: it fails at the end of the file, or returns
  -- 64 differences and leaves the pump full.
  pub read_tokens-Safely :
      (left i : ℕ) (buf : List ℤ) (p : Pumped)
      → length buf ≡ 64
      → IsPrimed p
      → Safely IsBlock (read_tokens d left i buf p)
  unfolding read_tokens
  read_tokens-Safely zero i buf p full primed = (full, primed)
  read_tokens-Safely (suc left) i buf p full primed = elim (Bool-cases (ltb i 64)) [
    | inr e ↦ rw (e, read_tokens) (full, primed)
    | inl e ↦
        rw (e, read_tokens)
          (Safely-bind IsLeaf IsBlock (read_leaf (decoder_at d i) p)
            (λ r. with_leaf r.0 i buf r.1 (read_tokens d left)) (decoder_at-Safely i p primed)
            (λ r leaf.
              with_leaf-Safely r.0 i buf r.1 (read_tokens d left) leaf.0 full leaf.1
                (λ j b p' far size ready. read_tokens-Safely left j b p' size ready)))
  ]
