-- ===== src/Decompress/Ljpeg/Tables/Lookups.antt =====
-- The lookups of the codes of at most 8 bits.
use native.Mathlib.Nat.{one-le-pow}
use libopenraw.Prelude.{
  ℕ, zero, suc, ◌+◌, ◌-◌, ◌*◌, ◌^◌, ◌≤◌, ◌<◌, ◌≡◌, ◌≢◌, ◌⊎◌, inl, inr, refl, ap, ◌∙◌, Bool-cases,
  false, List, leb, ltb, ltb→lt, ltb→ge, le→leb, gt→leb, length, length-set, set, get_elem?-set_ne,
  Result, ok, or_panic, index, update_lem, bit_or, bit_or_fields, pow_add, shl, arith, ◌>>=◌,
}
use libopenraw.Decompress.Ljpeg.Huffman.{HuffmanTable, bit_mask, write_lookups, write_lookup}
use libopenraw.Decompress.Ljpeg.Tables.Bounds.{index-set_self}

-- The lookups outside the places `i` to `j` are as they were.
abbrev pub KeptOutside : ℕ → ℕ → HuffmanTable → List ℕ → List ℕ → Type 0
KeptOutside i j t sizes values =
    (x : ℕ)
    → (x < i) ⊎ (j ≤ x)
    → (index sizes x ≡ index t.numbits x) × (index values x ≡ index t.value x)

-- The lookups of the `n` places from `i` on were stored.
pub record IsStored (i n size v : ℕ) (t : HuffmanTable) (step : Result HuffmanTable) : Type 0 where
  pub sizes : List ℕ
  pub values : List ℕ
  pub returns : step ≡ ok (record t { numbits = sizes; value = values })
  pub all_sizes : length sizes ≡ 256
  pub all_values : length values ≡ 256
  pub stored : (x : ℕ) → i ≤ x → x < i + n → (index sizes x ≡ ok size) × (index values x ≡ ok v)
  pub kept : KeptOutside i (i + n) t sizes values

index-set_ne : (xs : List ℕ) (i x v : ℕ) → i ≢ x → index (set xs i v) x ≡ index xs x
unfolding index
index-set_ne xs i x v h = ap or_panic (get_elem?-set_ne xs i x v h)

write_lookups-IsStored :
    (n i size v : ℕ) (t : HuffmanTable)
    → i + n ≤ 256
    → length t.numbits ≡ 256
    → length t.value ≡ 256
    → IsStored i n size v t (write_lookups n i size v t)
unfolding write_lookups
write_lookups-IsStored zero i size v t room a b = record {
  sizes = t.numbits;
  values = t.value;
  returns = refl;
  all_sizes = a;
  all_values = b;
  stored = λ x h k. absurd (omega arith);
  kept = λ x h. (refl, refl);
}
write_lookups-IsStored (suc n) i size v t room a b =
    let nb : List ℕ = set t.numbits i size in
    let va : List ℕ = set t.value i v in
    let s =
      write_lookups-IsStored n (i + 1) size v (record t { numbits = nb; value = va })
        (omega (arith, room)) (length-set t.numbits i size ∙ a) (length-set t.value i v ∙ b) in
    rw
      (
        update_lem t.numbits i size (omega (arith, room, a)),
        update_lem t.value i v (omega (arith, room, b)),
      )
      (record {
        sizes = s.sizes;
        values = s.values;
        returns = s.returns;
        all_sizes = s.all_sizes;
        all_values = s.all_values;
        stored = λ x h k. elim (Bool-cases (ltb i x)) [
          | inl e ↦ s.stored x (omega (arith, ltb→lt i x e)) (omega (arith, k))
          | inr e ↦
              let here : x ≡ i = omega (arith, h, ltb→ge i x e) in
              let (p, q) = s.kept x (inl (omega (arith, here))) in
              (
                p ∙ ap (index nb) here ∙ index-set_self t.numbits i size (omega (arith, room, a)),
                q ∙ ap (index va) here ∙ index-set_self t.value i v (omega (arith, room, b)),
              )
        ];
        kept = λ x h.
            let (p, q) =
              s.kept x
                (elim h [ inl k ↦ inl (omega (arith, k)) | inr k ↦ inr (omega (arith, k)) ]) in
            let other : i ≢ x =
              λ e. (elim h [ inl k ↦ omega (arith, k, e) | inr k ↦ omega (arith, k, e) ]) in
            (p ∙ index-set_ne t.numbits i x size other, q ∙ index-set_ne t.value i x v other);
      })

mask_lem : (l : ℕ) → l < 8 → index bit_mask (24 + l) ≡ ok (2 ^ (8 - l) - 1)
unfolding index
mask_lem zero h = refl
mask_lem (suc zero) h = refl
mask_lem (suc (suc zero)) h = refl
mask_lem (suc (suc (suc zero))) h = refl
mask_lem (suc (suc (suc (suc zero)))) h = refl
mask_lem (suc (suc (suc (suc (suc zero))))) h = refl
mask_lem (suc (suc (suc (suc (suc (suc zero)))))) h = refl
mask_lem (suc (suc (suc (suc (suc (suc (suc zero))))))) h = refl
mask_lem (suc (suc (suc (suc (suc (suc (suc (suc l)))))))) h = absurd (omega arith)

-- The places of a code of `l` bits lie below 256.
pub places_of : (l code : ℕ) → l ≤ 8 → code < 2 ^ l → code * 2 ^ (8 - l) + 2 ^ (8 - l) ≤ 256
places_of l code few under =
    let size : ◌≡◌ {A = ℕ} 8 (l + (8 - l)) = omega (arith, few) in
    let all : 2 ^ 8 ≡ 2 ^ l * 2 ^ (8 - l) = ap (λ i. 2 ^ i) size ∙ pow_add l (8 - l) in
    omega (arith, all, below code (2 ^ l) (2 ^ (8 - l)) under)
  where
    below : (c n k : ℕ) → c < n → c * k + k ≤ n * k
    below c n k h = grind arith

-- The lookups of a code of at most 8 bits.
pub write_lookup-IsStored :
    (huffsize huffcode : List ℕ) (p l code symbol : ℕ) (t : HuffmanTable)
    → index huffsize p ≡ ok l
    → index huffcode p ≡ ok code
    → index t.huffval p ≡ ok symbol
    → l ≤ 8
    → code < 2 ^ l
    → length t.numbits ≡ 256
    → length t.value ≡ 256
    → IsStored (code * 2 ^ (8 - l)) (2 ^ (8 - l)) l symbol t (write_lookup huffsize huffcode p t)
unfolding write_lookup
write_lookup-IsStored huffsize huffcode p l code symbol t is_size is_code is_symbol few under a b =
    let k = 2 ^ (8 - l) in
    let room = places_of l code few under in
    let some_places : 1 ≤ k = one-le-pow (8 - l) 2 (omega arith) in
    let low : shl 32 code (8 - l) ≡ code * k = omega (arith, room) in
    let stored = write_lookups-IsStored k (code * k) l symbol t room a b in
    let inside : leb (length t.numbits) (code * k) ≡ false =
      gt→leb (length t.numbits) (code * k) (omega (arith, room, a, some_places)) in
    rw (is_size, ◌>>=◌, le→leb l 8 few, is_symbol, is_code, low)
      (elim (Bool-cases (ltb l 8)) [
        | inl e ↦
            let more = ltb→lt l 8 e in
            let high : bit_or (code * k) (k - 1) ≡ code * k + (k - 1) =
              bit_or_fields (8 - l) code (k - 1) (omega (arith, some_places)) in
            let rounds : code * k + (k - 1) + 1 - code * k ≡ k = omega (arith, some_places) in
            rw (e, mask_lem l more, high, inside, rounds) stored
        | inr e ↦
            let whole : l ≡ 8 = omega (arith, few, ltb→ge l 8 e) in
            let one : k ≡ 1 = ap (λ i. 2 ^ (8 - i)) whole in
            let rounds : code * k + 1 - code * k ≡ k = omega (arith, one) in
            rw (e, inside, rounds) stored
      ])

-- A longer code has no lookups.
pub write_lookup_long :
    (huffsize huffcode : List ℕ) (p l : ℕ) (t : HuffmanTable)
    → index huffsize p ≡ ok l
    → 8 < l
    → write_lookup huffsize huffcode p t ≡ ok t
unfolding write_lookup
write_lookup_long huffsize huffcode p l t is_size long = rw (is_size, ◌>>=◌, gt→leb l 8 long) refl
