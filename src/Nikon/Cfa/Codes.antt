-- ===== src/Nikon/Cfa/Codes.antt =====
-- The trees decode the codes that the comments list for them.
use libopenraw.Prelude.{
  ℕ, zero, suc, ◌+◌, ◌≤◌, ◌<◌, ◌≡◌, refl, ap, ◌∙◌, subst, Bool, true, false, Option, none, some,
  List, [], ◌∷◌, ◌++◌, ◌==◌, length, length-append, All, get_elem?, take, drop, Result, ok, panic,
  ◌>>=◌, index, or_panic, if◌then◌else◌, arith,
}
use libopenraw.BitSource.{BitReaderCrate, IsBitReader, value_of}
use libopenraw.BitSource.Fields.{HasRead}
use libopenraw.Nikon.Huffman.{HuffmanNode, at_node, walk, decode}
use libopenraw.Nikon.Tables.{
  Book, lossy_12bit, lossy_12bit_book, lossy_14bit, lossy_14bit_book, lossless_14bit,
  lossless_14bit_book,
}

abbrev pub arrive : Option HuffmanNode → Option ℕ
arrive (some (true, v)) = some v
arrive (some (false, v)) = none
arrive none = none

abbrev pub onward : Option HuffmanNode → ℕ → Bool → (ℕ → Option ℕ) → Option ℕ
onward (some (false, v)) cur b next = next (if b then v else cur + 1)
onward (some (true, v)) cur b next = none
onward none cur b next = none

-- What a tree holds at the end of a path of bits.
abbrev pub path : List HuffmanNode → ℕ → List Bool → Option ℕ
path table cur [] = arrive (get_elem? table cur)
path table cur (b ∷ bs) = onward (get_elem? table cur) cur b (λ n. path table n bs)

-- Every code of a book ends in the tree at the value that the book says.
abbrev pub IsBookOf : List HuffmanNode → Book → Type 0
IsBookOf table book = All (λ e. path table 0 e.0 ≡ some e.1) book

pub lossy_12bit-IsBookOf : IsBookOf lossy_12bit lossy_12bit_book
lossy_12bit-IsBookOf = (
  refl,
  (
    refl,
    (
      refl,
      (refl, (refl, (refl, (refl, (refl, (refl, (refl, (refl, (refl, (refl, (refl, tt))))))))))),
    ),
  ),
)

pub lossy_14bit-IsBookOf : IsBookOf lossy_14bit lossy_14bit_book
lossy_14bit-IsBookOf = (
  refl,
  (
    refl,
    (
      refl,
      (
        refl,
        (refl, (refl, (refl, (refl, (refl, (refl, (refl, (refl, (refl, (refl, (refl, tt))))))))))),
      ),
    ),
  ),
)

pub lossless_14bit-IsBookOf : IsBookOf lossless_14bit lossless_14bit_book
lossless_14bit-IsBookOf = (
  refl,
  (
    refl,
    (
      refl,
      (
        refl,
        (refl, (refl, (refl, (refl, (refl, (refl, (refl, (refl, (refl, (refl, (refl, tt))))))))))),
      ),
    ),
  ),
)

module _ (c : BitReaderCrate) (laws : IsBitReader c) where
  one_bit :
      (s : c.State) (b : Bool) (rest : List Bool)
      → laws.bits s ≡ b ∷ rest
      → HasRead c laws (if b then 1 else 0) rest (c.read 8 1 s)
  one_bit s b rest e =
      let count : 1 ≤ length (laws.bits s) = rw e (omega arith) in
      let r = laws.reads 8 1 s (omega arith) count in
      record {
        after = r.0;
        returns =
            subst (λ bs. c.read 8 1 s ≡ ok (value_of (take 1 bs), r.0)) e r.1
            ∙ ap (λ v. ok (v, r.0)) (single b);
        left = r.2 ∙ ap (drop 1) e;
      }
    where
      single : (b : Bool) → value_of (b ∷ []) ≡ (if b then 1 else 0)
      single true = refl
      single false = refl

  one_lem :
      (b : Bool) (x y : ℕ) → (if (if b then 1 else 0) == 0 then x else y) ≡ (if b then y else x)
  one_lem true x y = refl
  one_lem false x y = refl

  walk-path :
      (table : List HuffmanNode) (late : Result (ℕ × c.State)) (left cur : ℕ) (s : c.State)
      (code rest : List Bool) (v : ℕ)
      → path table cur code ≡ some v
      → laws.bits s ≡ code ++ rest
      → length code < left
      → HasRead c laws v rest (walk c table late left cur s)
  unfolding walk at_node index
  walk-path table late zero cur s code rest v p e h = absurd (omega (arith, h))
  walk-path table late (suc left) cur s [] rest v p e h = at_leaf (get_elem? table cur) p
    where
      at_leaf :
          (node : Option HuffmanNode)
          → arrive node ≡ some v
          → HasRead c laws v rest
              (or_panic node >>= λ n. at_node c table n cur s (walk c table late left))
      at_leaf (some (true, w)) p =
          let same : w ≡ v = cc in
          record { after = s; returns = ap (λ n. ok (n, s)) same; left = e }
      at_leaf (some (false, w)) p = absurd cc
      at_leaf none p = absurd cc
  walk-path table late (suc left) cur s (b ∷ code) rest v p e h =
      at_branch (get_elem? table cur) p (one_bit s b (code ++ rest) e)
        (λ cur' s' p' e'. walk-path table late left cur' s' code rest v p' e' (omega (arith, h)))
    where
      at_branch :
          (node : Option HuffmanNode)
          → onward node cur b (λ n. path table n code) ≡ some v
          → HasRead c laws (if b then 1 else 0) (code ++ rest) (c.read 8 1 s)
          → ((cur' : ℕ) (s' : c.State)
              → path table cur' code ≡ some v
              → laws.bits s' ≡ code ++ rest
              → HasRead c laws v rest (walk c table late left cur' s'))
          → HasRead c laws v rest
              (or_panic node >>= λ n. at_node c table n cur s (walk c table late left))
      at_branch (some (true, w)) p r next = absurd cc
      at_branch none p r next = absurd cc
      at_branch (some (false, w)) p r next =
          rw (r.returns, one_lem b (cur + 1) w) (next (if b then w else cur + 1) r.after p r.left)

  -- With a reader that does what the crate documents: where the tree holds a value at the end of a
  -- path and the bits that are left start with that path, `decode` returns the value and stands
  -- behind the path.
  pub decode-path :
      (table : List HuffmanNode) (s : c.State) (code rest : List Bool) (v : ℕ)
      → path table 0 code ≡ some v
      → laws.bits s ≡ code ++ rest
      → HasRead c laws v rest (decode c table s)
  unfolding decode
  decode-path table s code rest v p e =
      walk-path table panic (c.remaining s + 1) 0 s code rest v p e
        (omega (arith, laws.counts s, ap length e, length-append code rest))
