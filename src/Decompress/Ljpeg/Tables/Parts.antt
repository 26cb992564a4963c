-- ===== src/Decompress/Ljpeg/Tables/Parts.antt =====
-- The loops of `fix` as they meet: where the codes begin, and where the lookups end.
use libopenraw.Prelude.{
  ℕ, zero, suc, ◌+◌, ◌*◌, ◌≤◌, ◌<◌, ◌≡◌, refl, sym, subst, subst₂, ap, ◌∙◌, List, [], ◌∷◌, ◌++◌,
  append_assoc, All, All-append, All-replicate, length, length-replicate, drop, drop-length,
  index-drop, replicate, replicate-add, ok, index, ℤ, arith,
}
use libopenraw.Decompress.Ljpeg.Huffman.{HuffmanTable, write_all_codes, write_all_lookups}
use libopenraw.Decompress.Ljpeg.Tables.{count, sizes_from, ascending, codes_from, IsFitting}
use libopenraw.Decompress.Ljpeg.Tables.Numbered.{write_all_codes_lem}
use libopenraw.Decompress.Ljpeg.Tables.Bounds.{SameBelow, AtLength-SameBelow, IsBounded}
use libopenraw.Decompress.Ljpeg.Tables.Lookups.{write_lookup_long}
use libopenraw.Decompress.Ljpeg.Tables.Levels.{code_behind}

pub drop_zeros : (n m : ℕ) → drop {A = ℕ} n (replicate (n + m) 0) ≡ replicate m 0
drop_zeros n m =
    ap (drop n) (replicate-add n m 0)
    ∙ drop-length (replicate n 0) (replicate m 0) n (sym (length-replicate n 0))

pub index-zeros : (n i : ℕ) → i < n → index {A = ℕ} (replicate n 0) i ≡ ok 0
unfolding index
index-zeros zero i h = absurd (omega arith)
index-zeros (suc n) zero h = refl
index-zeros (suc n) (suc i) h = index-zeros n i (omega (arith, h))

-- The loop over the codes, started at the first of the lengths.
abbrev pub StartsAt : List ℕ → List ℕ → List ℕ → List ℕ → Type 0
StartsAt ys zs sizes codes =
    (si : ℕ) × (index (sizes ++ (0 ∷ zs)) 0 ≡ ok si)
    × (write_all_codes 18 (sizes ++ (0 ∷ zs)) si ys 0 0 ≡ ok (codes ++ drop (length sizes) ys))

pub write_all_codes_start :
    (bits : List ℕ) (left l : ℕ) (ys zs : List ℕ)
    → l + left ≡ 17
    → 1 ≤ l
    → length (sizes_from bits left l) ≤ length ys
    → length ys ≤ 257
    → IsFitting bits left l 0
    → StartsAt ys zs (sizes_from bits left l) (codes_from bits left l 0)
write_all_codes_start bits zero l ys zs top low room cap fits =
    (0, unfold index in refl, unfold write_all_codes index in refl)
write_all_codes_start bits (suc left) l ys zs top low room cap fits =
    by_count (count bits l) refl
      (write_all_codes_start bits left (l + 1) ys zs (omega (arith, top)) (omega arith))
  where
    rest : List ℕ
    rest = sizes_from bits left (l + 1)

    by_count :
        (n : ℕ)
        → count bits l ≡ n
        → (length rest ≤ length ys
            → length ys ≤ 257
            → IsFitting bits left (l + 1) 0
            → StartsAt ys zs rest (codes_from bits left (l + 1) 0))
        → StartsAt ys zs (sizes_from bits (suc left) l) (codes_from bits (suc left) l 0)
    by_count zero e next =
        let same : sizes_from bits (suc left) l ≡ rest = ap (λ k. replicate k l ++ rest) e in
        let same_codes : codes_from bits (suc left) l 0 ≡ codes_from bits left (l + 1) 0 =
          ap (λ k. ascending k 0 ++ codes_from bits left (l + 1) ((0 + k) * 2)) e in
        subst₂ (StartsAt ys zs) (sym same) (sym same_codes) (
          next (omega (arith, room, ap length same)) cap
            (subst (λ k. IsFitting bits left (l + 1) ((0 + k) * 2)) e fits.1))
    by_count (suc n) e next = (
      l,
      ap (λ k. index ((replicate k l ++ rest) ++ (0 ∷ zs)) 0) e ∙ unfold index in refl,
      write_all_codes_lem bits (suc left) 18 (sizes_from bits (suc left) l ++ (0 ∷ zs)) l [] ys 0 0
          zs (omega (arith, top, low)) refl room cap low top fits refl,
    )

-- The sizes and the codes up to a length of 8, and those behind.
pub record IsSplit (bits : List ℕ) (big left l code : ℕ) : Type 0 where
  pub sizes : List ℕ
  pub codes : List ℕ
  pub is_sizes : sizes_from bits big l ≡ sizes_from bits left l ++ sizes
  pub is_codes : codes_from bits big l code ≡ codes_from bits left l code ++ codes
  pub long : All (λ z. 8 < z) sizes
  pub fitting : IsFitting bits left l code

sizes_from-All : (bits : List ℕ) (left l : ℕ) → 8 < l → All (λ z. 8 < z) (sizes_from bits left l)
sizes_from-All bits zero l h = tt
sizes_from-All bits (suc left) l h =
    All-append (λ z. 8 < z) (replicate (count bits l) l) (sizes_from bits left (l + 1))
      (All-replicate (λ z. 8 < z) (count bits l) l h)
      (sizes_from-All bits left (l + 1) (omega (arith, h)))

pub split_lem :
    (bits : List ℕ) (big left l code : ℕ)
    → l + left ≡ 9
    → big ≡ left + 8
    → IsFitting bits big l code
    → IsSplit bits big left l code
split_lem bits big zero l code top is fits = record {
  sizes = sizes_from bits big l;
  codes = codes_from bits big l code;
  is_sizes = refl;
  is_codes = refl;
  long = sizes_from-All bits big l (omega (arith, top));
  fitting = tt;
}
split_lem bits zero (suc left) l code top is fits = absurd (omega (arith, is))
split_lem bits (suc big) (suc left) l code top is fits =
    let n = count bits l in
    let s =
      split_lem bits big left (l + 1) ((code + n) * 2) (omega (arith, top)) (omega (arith, is))
        fits.1 in
    record {
      sizes = s.sizes;
      codes = s.codes;
      is_sizes =
          ap (λ t. replicate n l ++ t) s.is_sizes
          ∙ sym (append_assoc (replicate n l) (sizes_from bits left (l + 1)) s.sizes);
      is_codes =
          ap (λ t. ascending n code ++ t) s.is_codes
          ∙ sym (
              append_assoc (ascending n code) (codes_from bits left (l + 1) ((code + n) * 2))
                s.codes);
      long = s.long;
      fitting = (fits.0, s.fitting);
    }

-- Codes of more than 8 bits have no lookups.
pub write_all_lookups_long :
    (m p : ℕ) (huffsize huffcode : List ℕ) (t : HuffmanTable) (ss zs : List ℕ)
    → length ss ≡ m
    → All (λ z. 8 < z) ss
    → drop p huffsize ≡ ss ++ zs
    → write_all_lookups m p huffsize huffcode t ≡ ok t
unfolding write_all_lookups
write_all_lookups_long zero p huffsize huffcode t ss zs size long reads = refl
write_all_lookups_long (suc m) p huffsize huffcode t [] zs size long reads =
    absurd (omega (arith, size))
write_all_lookups_long (suc m) p huffsize huffcode t (s ∷ ss) zs size long reads =
    let (at, behind) = index-drop huffsize p reads in
    rw (write_lookup_long huffsize huffcode p s t at long.0) (
      write_all_lookups_long m (p + 1) huffsize huffcode t ss zs (omega (arith, size)) long.1
        behind)

-- The bounds do not depend on what is behind length 16.
pub IsBounded-SameBelow :
    (v : List ℕ) (f m m' : List ℤ) (bits : List ℕ) (left l p code : ℕ)
    → l + left ≤ 17
    → SameBelow 17 m m'
    → IsBounded v f m bits left l p code
    → IsBounded v f m' bits left l p code
IsBounded-SameBelow v f m m' bits zero l p code top same bounded = tt
IsBounded-SameBelow v f m m' bits (suc left) l p code top same bounded = (
  AtLength-SameBelow v v f f m m' l (count bits l) p code (λ i h. refl) (λ i h. refl)
      (λ i h. same i (omega (arith, h, top))) bounded.0,
  IsBounded-SameBelow v f m m' bits left (l + 1) (p + count bits l) ((code + count bits l) * 2)
      (omega (arith, top)) same bounded.1,
)

pub code_behind_even :
    (bits : List ℕ) (left l code : ℕ) → (e : ℕ) × (code_behind bits (suc left) l code ≡ e * 2)
code_behind_even bits zero l code = (code + count bits l, refl)
code_behind_even bits (suc left) l code =
    code_behind_even bits left (l + 1) ((code + count bits l) * 2)
