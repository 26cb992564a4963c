-- ===== src/Decompress/Ljpeg/Tables/Groups.antt =====
-- The lookups of all codes of a length.
use libopenraw.Prelude.{
  ℕ, zero, suc, ◌+◌, ◌-◌, ◌*◌, ◌^◌, ◌≤◌, ◌<◌, ◌≡◌, inl, inr, refl, sym, subst, ap, ap₂, ◌∙◌,
  Bool-cases, List, ◌++◌, ltb, ltb→lt, ltb→ge, length, get_or, drop, index-drop, replicate, ok,
  index, index_lem, arith,
}
use libopenraw.Decompress.Ljpeg.Huffman.{HuffmanTable, write_all_lookups}
use libopenraw.Decompress.Ljpeg.Tables.{ascending}
use libopenraw.Decompress.Ljpeg.Tables.Lookups.{KeptOutside, write_lookup-IsStored}

-- The lookups of the codes of `l` bits from `code` on, `n` of them, whose symbols begin at place `p`.
abbrev pub HasLookups : List ℕ → List ℕ → List ℕ → ℕ → ℕ → ℕ → ℕ → Type 0
HasLookups sizes values huffval l n p code =
    (c v : ℕ)
    → code ≤ c
    → c < code + n
    → v < 2 ^ (8 - l)
    → (index sizes (c * 2 ^ (8 - l) + v) ≡ ok l)
      × (index values (c * 2 ^ (8 - l) + v) ≡ index huffval (p + (c - code)))

pub record IsGrouped (n m p l code : ℕ) (huffsize huffcode : List ℕ) (t : HuffmanTable)
    : Type 0 where
  pub sizes : List ℕ
  pub values : List ℕ
  pub returns :
      write_all_lookups (n + m) p huffsize huffcode t
      ≡ write_all_lookups m (p + n) huffsize huffcode (record t { numbits = sizes; value = values })
  pub all_sizes : length sizes ≡ 256
  pub all_values : length values ≡ 256
  pub found : HasLookups sizes values t.huffval l n p code
  pub kept : KeptOutside (code * 2 ^ (8 - l)) ((code + n) * 2 ^ (8 - l)) t sizes values

-- Places of different codes do not meet.
pub code_lt : (c d v k : ℕ) → c < d → v < k → c * k + v < d * k
code_lt c d v k h g = grind arith

next_places : (c k : ℕ) → c * k + k ≡ (c + 1) * k
next_places c k = grind arith

pub mul_mono : (a b k : ℕ) → a ≤ b → a * k ≤ b * k
mul_mono a b k h = grind arith

pub write_all_lookups-IsGrouped :
    (n m p l code : ℕ) (huffsize huffcode : List ℕ) (t : HuffmanTable) (ss cs : List ℕ)
    → drop p huffsize ≡ replicate n l ++ ss
    → drop p huffcode ≡ ascending n code ++ cs
    → p + n ≤ length t.huffval
    → l ≤ 8
    → code + n ≤ 2 ^ l
    → length t.numbits ≡ 256
    → length t.value ≡ 256
    → IsGrouped n m p l code huffsize huffcode t
unfolding write_all_lookups
write_all_lookups-IsGrouped zero m p l code huffsize huffcode t ss cs sizes codes room few fits a
      b =
    record {
      sizes = t.numbits;
      values = t.value;
      returns = ap₂ (λ i q. write_all_lookups i q huffsize huffcode t) (omega arith) (omega arith);
      all_sizes = a;
      all_values = b;
      found = λ c v h k s. absurd (omega arith);
      kept = λ x h. (refl, refl);
    }
write_all_lookups-IsGrouped (suc n) m p l code huffsize huffcode t ss cs sizes codes room few fits a
      b =
    let k = 2 ^ (8 - l) in
    let symbol = get_or t.huffval p 0 in
    let is_symbol = index_lem t.huffval p 0 (omega (arith, room)) in
    let (at_size, sizes') = index-drop huffsize p sizes in
    let (at_code, codes') = index-drop huffcode p codes in
    let one =
      write_lookup-IsStored huffsize huffcode p l code symbol t at_size at_code is_symbol few
        (omega (arith, fits)) a b in
    let t' : HuffmanTable = record t { numbits = one.sizes; value = one.values } in
    let all =
      write_all_lookups-IsGrouped n m (p + 1) l (code + 1) huffsize huffcode t' ss cs sizes' codes'
        (omega (arith, room)) few (omega (arith, fits)) one.all_sizes one.all_values in
    let up : suc n + m ≡ suc (n + m) = omega arith in
    let next : code * k + k ≡ (code + 1) * k = next_places code k in
    let wide : (code + 1) * k ≤ (code + suc n) * k =
      mul_mono (code + 1) (code + suc n) k (omega arith) in
    let last : (code + 1 + n) * k ≡ (code + suc n) * k = ap (λ i. i * k) (omega arith) in
    record {
      sizes = all.sizes;
      values = all.values;
      returns =
          ap (λ i. write_all_lookups i p huffsize huffcode t) up
          ∙ rw (one.returns) (
              all.returns
              ∙ ap
                  (λ q.
                    write_all_lookups m q huffsize huffcode
                      (record t { numbits = all.sizes; value = all.values }))
                  (omega arith));
      all_sizes = all.all_sizes;
      all_values = all.all_values;
      found = λ c v low high small. elim (Bool-cases (ltb code c)) [
        | inl e ↦
            let above = ltb→lt code c e in
            let (p', q') = all.found c v (omega (arith, above)) (omega (arith, high)) small in
            (p', q' ∙ ap (index t.huffval) (omega (arith, above)))
        | inr e ↦
            let here : c ≡ code = omega (arith, low, ltb→ge code c e) in
            let inside : code * k + v < (code + 1) * k = omega (arith, next, small) in
            let (x, y) = one.stored (code * k + v) (omega arith) (omega (arith, small)) in
            let (x', y') = all.kept (code * k + v) (inl inside) in
            let place : p ≡ p + (c - code) = omega (arith, here) in
            subst
              (λ d.
                (index all.sizes (d * k + v) ≡ ok l)
                × (index all.values (d * k + v) ≡ index t.huffval (p + (c - code))))
              (sym here) (x' ∙ x, y' ∙ y ∙ sym is_symbol ∙ ap (index t.huffval) place)
      ];
      kept = λ x h. elim h [
        | inl g ↦
            let (x', y') = all.kept x (inl (omega (arith, g, next))) in
            let (x1, y1) = one.kept x (inl g) in (x' ∙ x1, y' ∙ y1)
        | inr g ↦
            let (x', y') = all.kept x (inr (omega (arith, g, last))) in
            let (x1, y1) = one.kept x (inr (omega (arith, g, next, wide))) in (x' ∙ x1, y' ∙ y1)
      ];
    }
