-- ===== src/Canon/Crw/Tree/Rounds.antt =====
-- `make_decoder` ends: no code is longer than 16 bits.
use libopenraw.Prelude.{
  ℕ, zero, suc, ◌+◌, ◌≤◌, ◌<◌, ◌≡◌, refl, inl, inr, Bool-cases, List, leb, ltb, ltb→lt, bind_cong,
  After, After-bind_cong, After-bind, After-weaken, After-any, index, arith,
}
use libopenraw.Canon.Crw.Tree.{
  DecoderNode, State, Made, make_decoder, make_node, branches_or_leaf, make_branches, count_codes,
  set_branch0, set_branch1,
}

-- The loop passes a count in a round.
count_codes-near :
    (left : ℕ) (table : List ℕ) (leaf i next : ℕ)
    → After (λ c. c.1 ≤ next + left) (count_codes left table leaf i next)
unfolding count_codes
count_codes-near zero table leaf i next = omega arith
count_codes-near (suc left) table leaf i next = elim (Bool-cases (leb i leaf)) [
  | inl e ↦ rw e (
      After-bind (λ _. Unit {0}) (λ c. c.1 ≤ next + suc left) (index table next)
        (λ n. count_codes left table leaf (i + n) (next + 1)) (After-any (index table next))
        (λ n u.
          After-weaken (λ c. c.1 ≤ next + 1 + left) (λ c. c.1 ≤ next + suc left)
            (count_codes left table leaf (i + n) (next + 1))
            (count_codes-near left table leaf (i + n) (next + 1)) (λ c near. omega (arith, near))))
  | inr e ↦ rw e (omega arith)
]

make_branches_cong :
    (f g : State → List DecoderNode → ℕ → Made) (state : State) (dest : List DecoderNode) (idx : ℕ)
    → ((s : State) (d : List DecoderNode) (i : ℕ) → f s d i ≡ g s d i)
    → make_branches f state dest idx ≡ make_branches g state dest idx
unfolding make_branches
make_branches_cong f g state dest idx same = bind_cong (set_branch0 dest idx state.free) (λ d1.
    rw (same state d1 state.free) (
      bind_cong (g state d1 state.free)
        (λ p. bind_cong (set_branch1 p.1 idx p.0.free) (λ d3. same p.0 d3 p.0.free))))

branches_or_leaf_cong :
    (f g : State → List DecoderNode → ℕ → Made) (table : List ℕ) (state : State)
    (dest : List DecoderNode) (idx level next : ℕ)
    → (level < next → (s : State) (d : List DecoderNode) (i : ℕ) → f s d i ≡ g s d i)
    → branches_or_leaf f table state dest idx level next
      ≡ branches_or_leaf g table state dest idx level next
unfolding branches_or_leaf
branches_or_leaf_cong f g table state dest idx level next same =
    elim (Bool-cases (ltb level next)) [
      | inr l ↦ rw (l, branches_or_leaf) refl
      | inl l ↦
          rw (l, branches_or_leaf)
            (make_branches_cong f g state dest idx (same (ltb→lt level next l)))
    ]

make_node_cong :
    (f g : State → List DecoderNode → ℕ → Made) (table : List ℕ) (state : State)
    (dest : List DecoderNode) (idx level : ℕ) (counted : ℕ × ℕ)
    → (level < counted.1 → (s : State) (d : List DecoderNode) (i : ℕ) → f s d i ≡ g s d i)
    → make_node f table state dest idx level counted
      ≡ make_node g table state dest idx level counted
unfolding make_node
make_node_cong f g table state dest idx level (i, next) same =
    elim (Bool-cases (ltb state.leaf i)) [
      | inr e ↦ rw (e, make_node) refl
      | inl e ↦ rw (e, make_node) (branches_or_leaf_cong f g table state dest idx level next same)
    ]

-- From a level of 0 to 16, `make_decoder` never comes to the end of its levels, where `a` or `b`
-- stands: whatever the table is, it goes down to level 16 at most.
pub make_decoder_levels :
    (a b : Made) (levels : ℕ) (table : List ℕ) (level : ℕ) (state : State) (dest : List DecoderNode)
    (idx : ℕ)
    → level ≤ 16
    → 17 ≤ level + levels
    → make_decoder a levels table level state dest idx
      ≡ make_decoder b levels table level state dest idx
unfolding make_decoder
make_decoder_levels a b zero table level state dest idx low enough =
    absurd (omega (arith, low, enough))
make_decoder_levels a b (suc levels) table level state dest idx low enough =
    After-bind_cong (λ c. c.1 ≤ 0 + 16) (count_codes 16 table state.leaf 0 0)
      (count_codes-near 16 table state.leaf 0 0)
      (λ counted near.
        make_node_cong (make_decoder a levels table (level + 1))
          (make_decoder b levels table (level + 1)) table (record state { free = state.free + 1 })
          dest idx level counted
          (λ deeper s d i.
            make_decoder_levels a b levels table (level + 1) s d i (omega (arith, deeper, near))
              (omega (arith, enough))))
