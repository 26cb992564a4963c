-- ===== src/Decompress/Ljpeg/Tables/Levels.antt =====
-- The lookups of all lengths up to 8.
use native.Mathlib.Nat.{one-le-pow, pow-suc}
use libopenraw.Prelude.{
  ℕ, zero, suc, ◌+◌, ◌-◌, ◌*◌, ◌^◌, ◌≤◌, ◌<◌, ◌≡◌, ◌⊎◌, inl, inr, refl, sym, subst, ap, ap₂, ◌∙◌,
  Bool-cases, List, ◌++◌, append_assoc, ltb, ltb→lt, ltb→ge, length, length-append,
  length-replicate, drop, drop-drop, drop-length, replicate, index, arith,
}
use libopenraw.Decompress.Ljpeg.Huffman.{HuffmanTable, write_all_lookups}
use libopenraw.Decompress.Ljpeg.Tables.{count, ascending, sizes_from, codes_from, IsFitting}
use libopenraw.Decompress.Ljpeg.Tables.Numbered.{length-ascending}
use libopenraw.Decompress.Ljpeg.Tables.Groups.{
  HasLookups, IsGrouped, code_lt, mul_mono, write_all_lookups-IsGrouped,
}

-- Behind the codes of length `l` and of `left` lengths, twice the next code.
abbrev pub code_behind : List ℕ → ℕ → ℕ → ℕ → ℕ
code_behind bits zero l code = code
code_behind bits (suc left) l code = code_behind bits left (l + 1) ((code + count bits l) * 2)

code_behind-le : (bits : List ℕ) (left l code : ℕ) → code * 2 ^ left ≤ code_behind bits left l code
code_behind-le bits zero l code = omega arith
code_behind-le bits (suc left) l code =
    let n = count bits l in
    let next = code_behind-le bits left (l + 1) ((code + n) * 2) in
    let up : code * 2 ^ suc left ≡ code * 2 * 2 ^ left =
      ap (λ p. code * p) (pow-suc 2 left) ∙ double code (2 ^ left) in
    omega (arith, up, next, mul_mono (code * 2) ((code + n) * 2) (2 ^ left) (omega arith))
  where
    double : (c p : ℕ) → c * (p * 2) ≡ c * 2 * p
    double c p = grind arith

abbrev pub AllLookups : List ℕ → List ℕ → List ℕ → List ℕ → ℕ → ℕ → ℕ → ℕ → Type 0
AllLookups sizes values huffval bits zero l p code = Unit {0}
AllLookups sizes values huffval bits (suc left) l p code =
    HasLookups sizes values huffval l (count bits l) p code
    × AllLookups sizes values huffval bits left (l + 1) (p + count bits l)
        ((code + count bits l) * 2)

-- The lookups of every length from `l` to 8.
pub record IsLooked (bits : List ℕ) (left m l p code : ℕ) (huffsize huffcode : List ℕ)
    (t : HuffmanTable) : Type 0 where
  pub sizes : List ℕ
  pub values : List ℕ
  pub returns :
      write_all_lookups (length (sizes_from bits left l) + m) p huffsize huffcode t
      ≡ write_all_lookups m
          (p + length (sizes_from bits left l))
          huffsize
          huffcode
          (record t { numbits = sizes; value = values })
  pub found : AllLookups sizes values t.huffval bits left l p code
  pub kept :
      (x : ℕ)
      → (x < code * 2 ^ (8 - l)) ⊎ (code_behind bits left l code ≤ 2 * x)
      → (index sizes x ≡ index t.numbits x) × (index values x ≡ index t.value x)

-- A field is at most twice as wide as that of one bit more.
half_places : (l : ℕ) → l ≤ 8 → 2 ^ (8 - l) ≤ 2 * 2 ^ (8 - (l + 1))
half_places l few = elim (Bool-cases (ltb l 8)) [
  | inl e ↦
      let next : 8 - l ≡ suc (8 - (l + 1)) = omega (arith, ltb→lt l 8 e) in
      omega (arith, ap (λ i. 2 ^ i) next, pow-suc 2 (8 - (l + 1)))
  | inr e ↦
      let here : 8 - l ≡ 0 = omega (arith, ltb→ge l 8 e) in
      omega (arith, ap (λ i. 2 ^ i) here, one-le-pow (8 - (l + 1)) 2)
]

-- A length and those behind it.
join-IsLooked :
    (bits : List ℕ) (left m l p code : ℕ) (huffsize huffcode : List ℕ) (t : HuffmanTable)
    → l + suc left ≡ 9
    → (group : IsGrouped
        (count bits l)
        (length (sizes_from bits left (l + 1)) + m)
        p
        l
        code
        huffsize
        huffcode
        t)
    → IsLooked bits left m
        (l + 1)
        (p + count bits l)
        ((code + count bits l) * 2)
        huffsize
        huffcode
        (record t { numbits = group.sizes; value = group.values })
    → IsLooked bits (suc left) m l p code huffsize huffcode t
join-IsLooked bits left m l p code huffsize huffcode t top group all =
    let n = count bits l in
    let k = 2 ^ (8 - l) in
    let next_sizes : List ℕ = sizes_from bits left (l + 1) in
    let total : length (replicate n l ++ next_sizes) ≡ n + length next_sizes =
      omega (arith, length-append (replicate n l) next_sizes, length-replicate n l) in
    let lower : (code + n) * k ≤ (code + n) * 2 * 2 ^ (8 - (l + 1)) =
      widen (code + n) k (2 ^ (8 - (l + 1))) (half_places l (omega (arith, top))) in
    let wide : code * k ≤ (code + n) * k = mul_mono code (code + n) k (omega arith) in
    let rest : left ≡ 8 - l = omega (arith, top) in
    let behind : (code + n) * 2 * k ≤ code_behind bits left (l + 1) ((code + n) * 2) =
      subst (λ e. (code + n) * 2 * 2 ^ e ≤ code_behind bits left (l + 1) ((code + n) * 2)) rest
        (code_behind-le bits left (l + 1) ((code + n) * 2)) in
    record {
      sizes = all.sizes;
      values = all.values;
      returns =
          ap (λ i. write_all_lookups i p huffsize huffcode t) (omega (arith, total))
          ∙ group.returns
          ∙ all.returns
          ∙ ap
              (λ q.
                write_all_lookups m q huffsize huffcode
                  (record t { numbits = all.sizes; value = all.values }))
              (omega (arith, total));
      found = (
        λ c v low high small.
            let inside : c * k + v < (code + n) * k = code_lt c (code + n) v k high small in
            let (x, y) = group.found c v low high small in
            let (x', y') = all.kept (c * k + v) (inl (omega (arith, inside, lower))) in
            (x' ∙ x, y' ∙ y),
        all.found,
      );
      kept = λ x h. elim h [
        | inl g ↦
            let (x1, y1) = group.kept x (inl g) in
            let (x2, y2) = all.kept x (inl (omega (arith, g, wide, lower))) in (x2 ∙ x1, y2 ∙ y1)
        | inr g ↦
            let (x1, y1) = group.kept x (inr (omega (arith, twice (code + n) k x, behind, g))) in
            let (x2, y2) = all.kept x (inr g) in (x2 ∙ x1, y2 ∙ y1)
      ];
    }
  where
    widen : (c k h : ℕ) → k ≤ 2 * h → c * k ≤ c * 2 * h
    widen c k h g = omega (arith, mul_mono k (2 * h) c g, swap c k, turn c h)
      where
        swap : (c k : ℕ) → k * c ≡ c * k
        swap c k = grind arith

        turn : (c h : ℕ) → 2 * h * c ≡ c * 2 * h
        turn c h = grind arith

    twice : (c k x : ℕ) → c * 2 * k ≤ 2 * x → c * k ≤ x
    twice c k x g = grind arith

pub write_all_lookups-IsLooked :
    (bits : List ℕ) (left m l p code : ℕ) (huffsize huffcode : List ℕ) (t : HuffmanTable)
    (ss cs : List ℕ)
    → l + left ≡ 9
    → drop p huffsize ≡ sizes_from bits left l ++ ss
    → drop p huffcode ≡ codes_from bits left l code ++ cs
    → p + length (sizes_from bits left l) ≤ length t.huffval
    → IsFitting bits left l code
    → length t.numbits ≡ 256
    → length t.value ≡ 256
    → IsLooked bits left m l p code huffsize huffcode t
write_all_lookups-IsLooked bits zero m l p code huffsize huffcode t ss cs top sizes codes room fits
      a b =
    record {
      sizes = t.numbits;
      values = t.value;
      returns = ap₂ (λ i q. write_all_lookups i q huffsize huffcode t) (omega arith) (omega arith);
      found = tt;
      kept = λ x h. (refl, refl);
    }
write_all_lookups-IsLooked bits (suc left) m l p code huffsize huffcode t ss cs top sizes codes room
      fits a b =
    let n = count bits l in
    let k = 2 ^ (8 - l) in
    let next_sizes : List ℕ = sizes_from bits left (l + 1) in
    let next_codes : List ℕ = codes_from bits left (l + 1) ((code + n) * 2) in
    let total : length (replicate n l ++ next_sizes) ≡ n + length next_sizes =
      omega (arith, length-append (replicate n l) next_sizes, length-replicate n l) in
    let sizes' = sizes ∙ append_assoc (replicate n l) next_sizes ss in
    let codes' = codes ∙ append_assoc (ascending n code) next_codes cs in
    let group =
      write_all_lookups-IsGrouped n (length next_sizes + m) p l code huffsize huffcode t
        (next_sizes ++ ss) (next_codes ++ cs) sizes' codes' (omega (arith, room, total))
        (omega (arith, top)) (omega (arith, fits.0)) a b in
    let t' : HuffmanTable = record t { numbits = group.sizes; value = group.values } in
    let behind_sizes : drop (p + n) huffsize ≡ next_sizes ++ ss =
      drop-drop huffsize p n
      ∙ ap (drop n) sizes'
      ∙ drop-length (replicate n l) (next_sizes ++ ss) n (sym (length-replicate n l)) in
    let behind_codes : drop (p + n) huffcode ≡ next_codes ++ cs =
      drop-drop huffcode p n
      ∙ ap (drop n) codes'
      ∙ drop-length (ascending n code) (next_codes ++ cs) n (sym (length-ascending n code)) in
    let all =
      write_all_lookups-IsLooked bits left m (l + 1) (p + n) ((code + n) * 2) huffsize huffcode t'
        ss cs (omega (arith, top)) behind_sizes behind_codes (omega (arith, room, total)) fits.1
        group.all_sizes group.all_values in
    join-IsLooked bits left m l p code huffsize huffcode t top group all
