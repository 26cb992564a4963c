-- ===== src/Decompress/Unpack/Layout.antt =====
-- What packed 12-bit data looks like, written down independently of the loop that reads it: pairs
-- of samples in three bytes, in groups of five pairs with fill bytes behind each group.
use libopenraw.Prelude.{
  ℕ, ◌+◌, ◌*◌, ◌/◌, ◌%◌, ◌<◌, ◌≡◌, refl, List, [], ◌∷◌, ◌++◌, All, length, length-append, arith,
}

abbrev pub IsSample : ℕ × ℕ → Type 0
IsSample p = (p.0 < 4096) × (p.1 < 4096)

-- Three bytes for two samples, high bits first or low bits first.
unfoldable pub be_bytes : ℕ × ℕ → ℕ × ℕ × ℕ
be_bytes p = (p.0 / 16, p.0 % 16 * 16 + p.1 / 256, p.1 % 256)

unfoldable pub le_bytes : ℕ × ℕ → ℕ × ℕ × ℕ
le_bytes p = (p.0 % 256, p.1 % 16 * 16 + p.0 / 256, p.1 / 16)

abbrev pub samples : List (ℕ × ℕ) → List ℕ
samples [] = []
samples (p ∷ ps) = p.0 ∷ p.1 ∷ samples ps

pub record Group : Type 0 where
  pub pairs : List (ℕ × ℕ)
  pub fill : List ℕ

pub record IsGroup (pad : ℕ) (g : Group) : Type 0 where
  pub five : length g.pairs ≡ 5
  pub filled : length g.fill ≡ pad
  pub fits : All IsSample g.pairs

abbrev pub group_samples : List Group → List ℕ
group_samples [] = []
group_samples (g ∷ gs) = samples g.pairs ++ group_samples gs

module _ (bytes : ℕ × ℕ → ℕ × ℕ × ℕ) where
  abbrev pub pack_pairs : List (ℕ × ℕ) → List ℕ
  pack_pairs [] = []
  pack_pairs (p ∷ ps) = (bytes p).0 ∷ (bytes p).1 ∷ (bytes p).2 ∷ pack_pairs ps

  abbrev pub pack_groups : List Group → List ℕ
  pack_groups [] = []
  pack_groups (g ∷ gs) = pack_pairs g.pairs ++ (g.fill ++ pack_groups gs)

  pub length-pack_pairs : (ps : List (ℕ × ℕ)) → length (pack_pairs ps) ≡ 3 * length ps
  length-pack_pairs [] = refl
  length-pack_pairs (p ∷ ps) = omega (arith, length-pack_pairs ps)

  pub length-pack_groups :
      (pad : ℕ) (gs : List Group)
      → All (IsGroup pad) gs
      → length (pack_groups gs) ≡ length gs * (15 + pad)
  length-pack_groups pad [] h = omega arith
  length-pack_groups pad (g ∷ gs) (hg, hgs) = omega (
    arith,
    length-append (pack_pairs g.pairs) (g.fill ++ pack_groups gs),
    length-append g.fill (pack_groups gs),
    length-pack_pairs g.pairs,
    length-pack_groups pad gs hgs,
    hg.five,
    hg.filled,
  )
