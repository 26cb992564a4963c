-- ===== src/Decompress/Ljpeg/Tables/Numbered.antt =====
-- Figure C.2: the codes.
use native.Mathlib.Nat.{pow-le-pow_right}
use libopenraw.Prelude.{
  ℕ, zero, suc, ◌+◌, ◌*◌, ◌%◌, ◌^◌, ◌≤◌, ◌<◌, ◌≡◌, ◌⊎◌, inl, inr, refl, sym, ap, ap₂, ◌∙◌, true,
  false, List, [], ◌∷◌, ◌++◌, append_assoc, ◌==◌, ge→ltb, length, length-append, length-drop, drop,
  drop-drop, drop-length, index-drop, replicate, length-replicate, ok, update-append, shl, arith,
  ◌>>=◌,
}
use libopenraw.Decompress.Ljpeg.Huffman.{write_codes, write_all_codes}
use libopenraw.Decompress.Ljpeg.Tables.{count, sizes_from, ascending, codes_from, IsFitting}

pub length-ascending : (n code : ℕ) → length (ascending n code) ≡ n
length-ascending zero code = refl
length-ascending (suc n) code = ap suc (length-ascending n (code + 1))

pub length-codes_from :
    (bits : List ℕ) (left l code : ℕ)
    → length (codes_from bits left l code) ≡ length (sizes_from bits left l)
length-codes_from bits zero l code = refl
length-codes_from bits (suc left) l code = omega (
  arith,
  length-append (ascending (count bits l) code)
      (codes_from bits left (l + 1) ((code + count bits l) * 2)),
  length-append (replicate (count bits l) l) (sizes_from bits left (l + 1)),
  length-ascending (count bits l) code,
  length-replicate (count bits l) l,
  length-codes_from bits left (l + 1) ((code + count bits l) * 2),
)

-- The first of the lengths from `l` on.
pub record HasHead (l : ℕ) (sizes : List ℕ) : Type 0 where
  pub head : ℕ
  pub others : List ℕ
  pub is : sizes ≡ head ∷ others
  pub above : l ≤ head

pub sizes_from_cases :
    (bits : List ℕ) (left l : ℕ)
    → (sizes_from bits left l ≡ []) ⊎ HasHead l (sizes_from bits left l)
sizes_from_cases bits zero l = inl refl
sizes_from_cases bits (suc left) l = by_count (count bits l) (sizes_from_cases bits left (l + 1))
  where
    by_count :
        (n : ℕ)
        → (sizes_from bits left (l + 1) ≡ []) ⊎ HasHead (l + 1) (sizes_from bits left (l + 1))
        → (replicate n l ++ sizes_from bits left (l + 1) ≡ [])
          ⊎ HasHead l (replicate n l ++ sizes_from bits left (l + 1))
    by_count zero (inl e) = inl e
    by_count zero (inr h) =
        inr (record { head = h.head; others = h.others; is = h.is; above = omega (arith, h.above) })
    by_count (suc n) _ = inr (record {
      head = l;
      others = replicate n l ++ sizes_from bits left (l + 1);
      is = refl;
      above = omega arith;
    })

-- Behind the codes of a length there is another length, or 0 at the end.
record HasOther (l : ℕ) (sizes : List ℕ) : Type 0 where
  head : ℕ
  others : List ℕ
  is : sizes ≡ head ∷ others
  other : (head == l) ≡ false

next_size :
    (bits : List ℕ) (left l : ℕ) (zs : List ℕ)
    → 1 ≤ l
    → HasOther l (sizes_from bits left (l + 1) ++ (0 ∷ zs))
next_size bits left l zs some_bits = elim (sizes_from_cases bits left (l + 1)) [
  | inl e ↦ record {
    head = 0;
    others = zs;
    is = ap (λ t. t ++ (0 ∷ zs)) e;
    other = ground (arith, some_bits);
  }
  | inr h ↦ record {
    head = h.head;
    others = h.others ++ (0 ∷ zs);
    is = ap (λ t. t ++ (0 ∷ zs)) h.is;
    other = ground (arith, h.above);
  }
]

-- The codes of one length. `z` is the length that follows.
write_codes_lem :
    (n fuel : ℕ) (huffsize : List ℕ) (si : ℕ) (xs ys : List ℕ) (p code z : ℕ) (zs : List ℕ)
    → n < fuel
    → p ≡ length xs
    → n ≤ length ys
    → code + n < 2 ^ 16
    → (z == si) ≡ false
    → drop p huffsize ≡ replicate n si ++ (z ∷ zs)
    → write_codes fuel huffsize si (xs ++ ys) p code
      ≡ ok (xs ++ (ascending n code ++ drop n ys), p + n, code + n)
unfolding write_codes
write_codes_lem n zero huffsize si xs ys p code z zs fuelled place room small other reads =
    absurd (omega arith)
write_codes_lem zero (suc fuel) huffsize si xs ys p code z zs fuelled place room small other reads =
    let (at, _) = index-drop huffsize p reads in
    rw (at, ◌>>=◌, other) (ap₂ (λ i c. ok (xs ++ ys, i, c)) (omega arith) (omega arith))
write_codes_lem (suc n) (suc fuel) huffsize si xs [] p code z zs fuelled place room small other
      reads =
    absurd (omega (arith, room))
write_codes_lem (suc n) (suc fuel) huffsize si xs (y ∷ ys) p code z zs fuelled place room small
      other reads =
    let (at, behind) = index-drop huffsize p reads in
    let same : (si == si) ≡ true = ground arith in
    let cut : code % 2 ^ 16 ≡ code = omega (arith, small) in
    rw
      (
        at,
        ◌>>=◌,
        same,
        cut,
        update-append xs ys y code p place,
        ge→ltb 65535 (code + 1) (omega (arith, small)),
        sym (append_assoc xs (code ∷ []) ys),
      )
      (write_codes_lem n fuel huffsize si (xs ++ code ∷ []) ys (p + 1) (code + 1) z zs
          (omega (arith, fuelled)) (omega (arith, place, length-append xs (code ∷ [])))
          (omega (arith, room)) (omega (arith, small)) other behind
        ∙ ap (λ t. ok (t, p + 1 + n, code + 1 + n))
            (append_assoc xs (code ∷ []) (ascending n (code + 1) ++ drop n ys))
        ∙ ap₂ (λ i c. ok (xs ++ (code ∷ (ascending n (code + 1) ++ drop n ys)), i, c)) (omega arith)
            (omega arith))

nil_of_length : (xs : List ℕ) → length xs ≡ 0 → xs ≡ []
nil_of_length [] e = refl
nil_of_length (x ∷ xs) e = absurd (omega (arith, e))

-- The codes are written in order, and the loop stops behind the last length.
pub write_all_codes_lem :
    (bits : List ℕ) (left fuel : ℕ) (huffsize : List ℕ) (l : ℕ) (xs ys : List ℕ) (p code : ℕ)
    (zs : List ℕ)
    → left < fuel
    → p ≡ length xs
    → length (sizes_from bits left l) ≤ length ys
    → length ys ≤ 257
    → 1 ≤ l
    → l + left ≡ 17
    → IsFitting bits left l code
    → drop p huffsize ≡ sizes_from bits left l ++ (0 ∷ zs)
    → write_all_codes fuel huffsize l (xs ++ ys) p code
      ≡ ok (xs ++ (codes_from bits left l code ++ drop (length (sizes_from bits left l)) ys))
unfolding write_all_codes
write_all_codes_lem bits left zero huffsize l xs ys p code zs fuelled place room cap low top fits
      reads =
    absurd (omega arith)
write_all_codes_lem bits zero (suc fuel) huffsize l xs ys p code zs fuelled place room cap low top
      fits reads =
    let (at, _) = index-drop huffsize p reads in rw (at, ◌>>=◌) refl
write_all_codes_lem bits (suc left) (suc fuel) huffsize l xs ys p code zs fuelled place room cap low
      top fits reads =
    elim (sizes_from_cases bits (suc left) l) [
      | inl e ↦
          let (at, _) = index-drop huffsize p (reads ∙ ap (λ t. t ++ (0 ∷ zs)) e) in
          let none_coded : codes_from bits (suc left) l code ≡ [] =
            nil_of_length (codes_from bits (suc left) l code)
              (length-codes_from bits (suc left) l code ∙ ap length e) in
          rw (at, ◌>>=◌) (sym (ap₂ (λ cs ss. ok (xs ++ (cs ++ drop (length ss) ys))) none_coded e))
      | inr h ↦
          let (at, _) = index-drop huffsize p (reads ∙ ap (λ t. t ++ (0 ∷ zs)) h.is) in
          let some_size : (h.head == 0) ≡ false = ground (arith, h.above, low) in
          let n = count bits l in
          let here : List ℕ = ascending n code in
          let next : List ℕ = sizes_from bits left (l + 1) in
          let codes : List ℕ = codes_from bits left (l + 1) ((code + n) * 2) in
          let total : length (replicate n l ++ next) ≡ n + length next =
            omega (arith, length-append (replicate n l) next, length-replicate n l) in
          let up : 2 ^ l ≤ 2 ^ 16 =
            pow-le-pow_right (omega arith) {i = l} {j = 16} (omega (arith, top)) in
          let small : code + n < 2 ^ 16 = omega (arith, fits.0, up) in
          let double : shl 32 (code + n) 1 ≡ (code + n) * 2 = omega (arith, small) in
          let reads' = reads ∙ append_assoc (replicate n l) next (0 ∷ zs) in
          let o = next_size bits left l zs low in
          let round =
            write_codes_lem n 258 huffsize l xs ys p code o.head o.others
              (omega (arith, room, total, cap)) place (omega (arith, room, total)) small o.other
              (reads' ∙ ap (λ t. replicate n l ++ t) o.is) in
          let behind : drop (p + n) huffsize ≡ next ++ (0 ∷ zs) =
            drop-drop huffsize p n
            ∙ ap (drop n) reads'
            ∙ drop-length (replicate n l) (next ++ (0 ∷ zs)) n (sym (length-replicate n l)) in
          rw (at, ◌>>=◌, some_size, round, double, sym (append_assoc xs here (drop n ys)))
            (write_all_codes_lem bits left fuel huffsize (l + 1) (xs ++ here) (drop n ys) (p + n)
                ((code + n) * 2) zs (omega (arith, fuelled))
                (omega (arith, place, length-append xs here, length-ascending n code))
                (omega (arith, room, total, length-drop n ys))
                (omega (arith, cap, length-drop n ys)) (omega arith) (omega (arith, top)) fits.1
                behind
              ∙ ap ok (
                  append_assoc xs here (codes ++ drop (length next) (drop n ys))
                  ∙ ap (λ t. xs ++ t)
                      (sym (append_assoc here codes (drop (length next) (drop n ys)))
                        ∙ ap (λ t. (here ++ codes) ++ t)
                            (sym (drop-drop ys n (length next))
                              ∙ ap (λ k. drop k ys) (sym total)))))
    ]
