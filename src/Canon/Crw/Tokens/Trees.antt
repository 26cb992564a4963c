-- ===== src/Canon/Crw/Tokens/Trees.antt =====
-- The trees of a decompressor decode the codes that the counts give.
use libopenraw.Prelude.{
  ℕ, zero, suc, ◌+◌, ◌*◌, ◌≤◌, ◌<◌, ◌≡◌, refl, ap, min, Bool, true, false, ◌&&◌, Option, none, some,
  List, [], ◌∷◌, ◌++◌, ◌==◌, ==_iff, if◌then◌else◌, get_elem?, get_or, take, drop, All, Result, ok,
  panic, err, index, update, length, ltb, ltb→lt, index_lem, arith,
}
use libopenraw.BitSource.{low_bits}
use libopenraw.Canon.Crw.Tables.{first_tree, second_tree}
use libopenraw.Canon.Crw.Tree.{
  DecoderNode, make_decoder, make_node, branches_or_leaf, make_leaf, make_branches, count_codes,
  set_branch0, set_branch1, set_leaf,
}
use libopenraw.Canon.Crw.Tokens.{Decompress, tree_of, new_decompress}

-- Codes with the leaf that each stands for.
abbrev pub Codebook : Type 0
Codebook = List (List Bool × ℕ)

-- Codes of one length count up.
abbrev entries : ℕ → ℕ → ℕ → List ℕ → Codebook
entries zero len code leaves = []
entries (suc n) len code [] = []
entries (suc n) len code (l ∷ ls) = (low_bits len code, l) ∷ entries n len (code + 1) ls

-- Codes that are a bit longer go on behind them.
abbrev book_from : List ℕ → ℕ → ℕ → List ℕ → Codebook
book_from [] len code leaves = []
book_from (n ∷ counts) len code leaves =
    entries n len code leaves ++ book_from counts (len + 1) ((code + n) * 2) (drop n leaves)

abbrev pub book_of : List ℕ → Codebook
book_of table = book_from (take 16 table) 1 0 (drop 16 table)

abbrev pub at_end : Option DecoderNode → Option ℕ
at_end none = none
at_end (some node) = if node.branch0 == 0 then some node.leaf else none

abbrev pub onto : Option DecoderNode → Bool → (ℕ → Option ℕ) → Option ℕ
onto none b next = none
onto (some node) b next =
    if node.branch0 == 0 then none else next (if b then node.branch1 else node.branch0)

-- The leaf at the end of a path of bits.
abbrev pub leaf_at : List DecoderNode → ℕ → List Bool → Option ℕ
leaf_at tree d [] = at_end (get_elem? tree d)
leaf_at tree d (b ∷ bs) = onto (get_elem? tree d) b (λ n. leaf_at tree n bs)

abbrev is_some : Option ℕ → ℕ → Bool
is_some none v = false
is_some (some x) v = x == v

abbrev all_decoded : List DecoderNode → Codebook → Bool
all_decoded tree [] = true
all_decoded tree (e ∷ es) = is_some (leaf_at tree 0 e.0) e.1 && all_decoded tree es

abbrev is_inside : ℕ → DecoderNode → Bool
is_inside size node = ltb node.branch0 size && (ltb node.branch1 size && ltb node.leaf 256)

abbrev all_inside : ℕ → List DecoderNode → Bool
all_inside size [] = true
all_inside size (node ∷ nodes) = is_inside size node && all_inside size nodes

-- A tree whose branches stay in its array, with bytes as leaves.
pub record IsInside (size : ℕ) (node : DecoderNode) : Type 0 where
  pub left : node.branch0 < size
  pub right : node.branch1 < size
  pub byte : node.leaf < 256

-- Every code of the book ends in the tree at its leaf.
pub record IsTreeOf (book : Codebook) (size : ℕ) (tree : List DecoderNode) : Type 0 where
  pub decodes : All (λ e. leaf_at tree 0 e.0 ≡ some e.1) book
  pub inside : All (IsInside size) tree
  pub full : length tree ≡ size

and_both : (a b : Bool) → (a && b) ≡ true → (a ≡ true) × (b ≡ true)
and_both true b e = (refl, e)
and_both false b e = absurd cc

is_some-eq : (o : Option ℕ) (v : ℕ) → is_some o v ≡ true → o ≡ some v
is_some-eq none v e = absurd cc
is_some-eq (some x) v e = ap some ((==_iff x v).0 e)

all_decoded-All :
    (tree : List DecoderNode) (book : Codebook)
    → all_decoded tree book ≡ true
    → All (λ e. leaf_at tree 0 e.0 ≡ some e.1) book
all_decoded-All tree [] e = tt
all_decoded-All tree (x ∷ xs) e =
    let both = and_both (is_some (leaf_at tree 0 x.0) x.1) (all_decoded tree xs) e in
    (is_some-eq (leaf_at tree 0 x.0) x.1 both.0, all_decoded-All tree xs both.1)

all_inside-All :
    (size : ℕ) (nodes : List DecoderNode) → all_inside size nodes ≡ true → All (IsInside size) nodes
all_inside-All size [] e = tt
all_inside-All size (x ∷ xs) e =
    let both = and_both (is_inside size x) (all_inside size xs) e in
    let more = and_both (ltb x.branch0 size) (ltb x.branch1 size && ltb x.leaf 256) both.0 in
    let last = and_both (ltb x.branch1 size) (ltb x.leaf 256) more.1 in
    (
      record {
        left = ltb→lt x.branch0 size more.0;
        right = ltb→lt x.branch1 size last.0;
        byte = ltb→lt x.leaf 256 last.1;
      },
      all_inside-All size xs both.1,
    )

-- The test of a tree that is built, which computes.
abbrev is_tree : Codebook → ℕ → List DecoderNode → Bool
is_tree book size tree = all_decoded tree book && (all_inside size tree && length tree == size)

abbrev is_built : Codebook → ℕ → Result (List DecoderNode) → Bool
is_built book size panic = false
is_built book size (err e) = false
is_built book size (ok tree) = is_tree book size tree

pub record IsBuilt (book : Codebook) (size : ℕ) (m : Result (List DecoderNode)) : Type 0 where
  pub tree : List DecoderNode
  pub returns : m ≡ ok tree
  pub fits : IsTreeOf book size tree

is_built-IsBuilt :
    (book : Codebook) (size : ℕ) (m : Result (List DecoderNode))
    → is_built book size m ≡ true
    → IsBuilt book size m
is_built-IsBuilt book size panic e = absurd cc
is_built-IsBuilt book size (err code) e = absurd cc
is_built-IsBuilt book size (ok tree) e =
    let both = and_both (all_decoded tree book) (all_inside size tree && length tree == size) e in
    let more = and_both (all_inside size tree) (length tree == size) both.1 in
    record {
      tree = tree;
      returns = refl;
      fits = record {
        decodes = all_decoded-All tree book both.0;
        inside = all_inside-All size tree more.0;
        full = (==_iff (length tree) size).0 more.1;
      };
    }

module _ (n : ℕ) where
  abbrev pub first_book : Codebook
  first_book = book_of (get_or first_tree n [])

  abbrev pub second_book : Codebook
  second_book = book_of (get_or second_tree n [])

first_tree-is_built :
    (n : ℕ) → n ≤ 2 → is_built (first_book n) 32 (tree_of (get_or first_tree n []) 32) ≡ true
unfolding tree_of make_decoder make_node branches_or_leaf make_leaf make_branches count_codes
    set_branch0 set_branch1 set_leaf index update
first_tree-is_built zero h = refl
first_tree-is_built (suc zero) h = refl
first_tree-is_built (suc (suc zero)) h = refl
first_tree-is_built (suc (suc (suc n))) h = absurd (omega (arith, h))

second_tree-is_built :
    (n : ℕ) → n ≤ 2 → is_built (second_book n) 512 (tree_of (get_or second_tree n []) 512) ≡ true
unfolding tree_of make_decoder make_node branches_or_leaf make_leaf make_branches count_codes
    set_branch0 set_branch1 set_leaf index update
second_tree-is_built zero h = refl
second_tree-is_built (suc zero) h = refl
second_tree-is_built (suc (suc zero)) h = refl
second_tree-is_built (suc (suc (suc n))) h = absurd (omega (arith, h))

-- What `new` returns: a decompressor of the size that was asked for, whose trees are those of the
-- books of table `n`.
pub record IsDecompressor (n width height : ℕ) (m : Result Decompress) : Type 0 where
  pub made : Decompress
  pub returns : m ≡ ok made
  pub wide : made.width ≡ width
  pub high : made.height ≡ height
  pub first : IsTreeOf (first_book n) 32 made.first_decoder
  pub second : IsTreeOf (second_book n) 512 made.second_decoder

-- The number of the table, of which there are three.
abbrev pub table_number : ℕ → ℕ
table_number table = min table 2

-- For every table number, `new` returns a decompressor: each tree, in its array of 32 or 512 nodes,
-- leads from every code that the counts of the specification give to the leaf that is listed for it,
-- and no branch leaves the array. A number above 2 stands for 2.
pub new_decompress-IsDecompressor :
    (table width height : ℕ)
    → IsDecompressor (table_number table) width height (new_decompress table width height)
unfolding new_decompress
new_decompress-IsDecompressor table width height =
    let n = min table 2 in
    let low : n ≤ 2 = omega arith in
    let clamped : (if ltb 2 table then 2 else table) ≡ min table 2 = ground arith in
    let one =
      is_built-IsBuilt (first_book n) 32 (tree_of (get_or first_tree n []) 32)
        (first_tree-is_built n low) in
    let two =
      is_built-IsBuilt (second_book n) 512 (tree_of (get_or second_tree n []) 512)
        (second_tree-is_built n low) in
    rw
      (
        clamped,
        index_lem first_tree n [] (omega (arith, low)),
        one.returns,
        index_lem second_tree n [] (omega (arith, low)),
        two.returns,
      )
      (record {
        made = record {
          width = width;
          height = height;
          first_decoder = one.tree;
          second_decoder = two.tree;
        };
        returns = refl;
        wide = refl;
        high = refl;
        first = one.fits;
        second = two.fits;
      })
