-- ===== src/Canon/Crw/Tokens/Walk.antt =====
-- The walk down a tree ends, and finds the leaf of a code.
use libopenraw.Prelude.{
  ℕ, zero, suc, ◌*◌, ◌≤◌, ◌<◌, ◌≡◌, refl, ap, ◌∙◌, inl, inr, Bool, true, false, Bool-cases, Option,
  none, some, List, [], ◌∷◌, ◌++◌, ◌==◌, length, length-append, length-drop, get_elem?, Result, ok,
  panic, ◌>>=◌, index, or_panic, if◌then◌else◌, pos, arith,
}
use libopenraw.BitSource.{low_bits, bytes_bits, stuff}
use libopenraw.BitSource.Fields.{length-low_bits}
use libopenraw.Canon.Crw.Tree.{DecoderNode, branch_of}
use libopenraw.Canon.Crw.Pump.{Pumped, get_bits}
use libopenraw.Canon.Crw.Pump.Bits.{IsBefore, HasBits, get_bits-HasBits}
use libopenraw.Canon.Crw.Tokens.{down, walk, walk_fuel, read_leaf}
use libopenraw.Canon.Crw.Tokens.Trees.{leaf_at, at_end, onto}

down_leaf :
    (node : DecoderNode) (p : Pumped) (next : ℕ → Pumped → Result (ℕ × Pumped))
    → (node.branch0 == 0) ≡ true
    → down node p next ≡ ok (node.leaf, p)
unfolding down
down_leaf node p next e = rw (e, down) refl

down_branch :
    (node : DecoderNode) (p p' : Pumped) (next : ℕ → Pumped → Result (ℕ × Pumped)) (b : Bool)
    → (node.branch0 == 0) ≡ false
    → get_bits (pos 1) p.0 p.1 ≡ ok (if b then 1 else 0, p')
    → down node p next ≡ next (if b then node.branch1 else node.branch0) p'
unfolding down branch_of
down_branch node p p' next true e f = rw (e, down, f) refl
down_branch node p p' next false e f = rw (e, down, f) refl

-- A byte that is loaded is one of the file, so that the rounds suffice for the bits that are pending.
length-stuff : (ws : List ℕ) → length ws ≤ length (stuff ws)
length-stuff [] = omega arith
length-stuff (w ∷ ws) = elim (Bool-cases (w == 0xff)) [
  | inl e ↦ rw e (omega (arith, length-stuff ws))
  | inr e ↦ rw e (omega (arith, length-stuff ws))
]

length-bytes_bits : (ws : List ℕ) → length (bytes_bits ws) ≡ 8 * length ws
length-bytes_bits [] = refl
length-bytes_bits (w ∷ ws) =
    length-append (low_bits 8 w) (bytes_bits ws)
    ∙ omega (arith, length-low_bits 8 w, length-bytes_bits ws)

module _ (tail bytes : List ℕ) where
  pending-lt-walk_fuel :
      (bits : List Bool) (p : Pumped) → IsBefore tail bytes bits p → length bits < walk_fuel p
  unfolding walk_fuel
  pending-lt-walk_fuel bits p before = omega (
    arith,
    ap length before.rest,
    length-append (low_bits p.0.vbits p.0.bitbuf) (bytes_bits before.ws),
    length-low_bits p.0.vbits p.0.bitbuf,
    length-bytes_bits before.ws,
    ap length before.at.left,
    length-append (stuff before.ws) tail,
    length-stuff before.ws,
    length-drop p.1.pos p.1.bytes,
  )

  pub one_bit :
      (b : Bool) (rest : List Bool) (p : Pumped)
      → IsBefore tail bytes (b ∷ rest) p
      → 32 ≤ length rest
      → HasBits tail bytes (if b then 1 else 0) rest (get_bits (pos 1) p.0 p.1)
  one_bit true rest p before enough =
      get_bits-HasBits tail bytes 1 (true ∷ rest) p (omega arith) (omega arith) before
        (omega (arith, enough))
  one_bit false rest p before enough =
      get_bits-HasBits tail bytes 1 (false ∷ rest) p (omega arith) (omega arith) before
        (omega (arith, enough))

  walk-leaf_at :
      (tree : List DecoderNode) (late : Result (ℕ × Pumped)) (left d : ℕ) (p : Pumped)
      (code rest : List Bool) (v : ℕ)
      → leaf_at tree d code ≡ some v
      → IsBefore tail bytes (code ++ rest) p
      → 32 ≤ length rest
      → length code < left
      → HasBits tail bytes v rest (walk late left tree d p)
  unfolding walk index
  walk-leaf_at tree late zero d p code rest v e before enough h = absurd (omega (arith, h))
  walk-leaf_at tree late (suc left) d p [] rest v e before enough h = at_leaf (get_elem? tree d) e
    where
      at_leaf :
          (node : Option DecoderNode)
          → at_end node ≡ some v
          → HasBits tail bytes v rest (or_panic node >>= λ n. down n p (walk late left tree))
      at_leaf none e = absurd cc
      at_leaf (some node) e = elim (Bool-cases (node.branch0 == 0)) [
        | inl z ↦
            let found : some node.leaf ≡ some v = rw z at e in
            let same : node.leaf ≡ v = cc in
            record {
              after = p;
              returns = down_leaf node p (walk late left tree) z ∙ ap (λ l. ok (l, p)) same;
              before = before;
            }
        | inr z ↦ let found : none ≡ some v = rw z at e in absurd cc
      ]
  walk-leaf_at tree late (suc left) d p (b ∷ code) rest v e before enough h =
      at_branch (get_elem? tree d) e
        (one_bit b (code ++ rest) p before (omega (arith, enough, length-append code rest)))
        (λ d' p' e' before'.
          walk-leaf_at tree late left d' p' code rest v e' before' enough (omega (arith, h)))
    where
      at_branch :
          (node : Option DecoderNode)
          → onto node b (λ n. leaf_at tree n code) ≡ some v
          → HasBits tail bytes (if b then 1 else 0) (code ++ rest) (get_bits (pos 1) p.0 p.1)
          → ((d' : ℕ) (p' : Pumped)
              → leaf_at tree d' code ≡ some v
              → IsBefore tail bytes (code ++ rest) p'
              → HasBits tail bytes v rest (walk late left tree d' p'))
          → HasBits tail bytes v rest (or_panic node >>= λ n. down n p (walk late left tree))
      at_branch none e r next = absurd cc
      at_branch (some node) e r next = elim (Bool-cases (node.branch0 == 0)) [
        | inl z ↦ let found : none ≡ some v = rw z at e in absurd cc
        | inr z ↦
            let place : ℕ = if b then node.branch1 else node.branch0 in
            rw (down_branch node p r.after (walk late left tree) b z r.returns)
              (next place r.after (rw z at e) r.before)
      ]

  -- Where the bits start with a code that the tree holds, `read_leaf` returns its leaf and stands
  -- behind it.
  pub read_leaf-leaf_at :
      (tree : List DecoderNode) (p : Pumped) (code rest : List Bool) (v : ℕ)
      → leaf_at tree 0 code ≡ some v
      → IsBefore tail bytes (code ++ rest) p
      → 32 ≤ length rest
      → HasBits tail bytes v rest (read_leaf tree p)
  unfolding read_leaf
  read_leaf-leaf_at tree p code rest v e before enough =
      walk-leaf_at tree panic (walk_fuel p) 0 p code rest v e before enough
        (omega (arith, pending-lt-walk_fuel (code ++ rest) p before, length-append code rest))
