-- ===== src/Decompress/Ljpeg/Tables/Coded.antt =====
-- From the bounds and the lookups of a table, every code of the canonical code stands for its symbol.
use native.Mathlib.Nat.{pow-suc, div-div-eq-div-mul}
use libopenraw.Prelude.{
  ℕ, zero, suc, ◌+◌, ◌-◌, ◌*◌, ◌/◌, ◌^◌, ◌≤◌, ◌<◌, ◌≡◌, refl, sym, subst, ap, ◌∙◌, true, List,
  lt→ltb, ge→ltb, All, All-append, length, length-append, length-replicate, replicate, get_or, ok,
  index, index_lem, ℤ, pos, negsuc, ltb_ℤ, arith,
}
use libopenraw.BitSource.{low_bits}
use libopenraw.Decompress.Ljpeg.Huffman.{HuffmanTable}
use libopenraw.Decompress.Ljpeg.Codes.{Codes}
use libopenraw.Decompress.Ljpeg.Tables.{count, IsFitting, CodeEntry, entries, book_from, sizes_from}
use libopenraw.Decompress.Ljpeg.Tables.Bounds.{AtLength, IsBounded}
use libopenraw.Decompress.Ljpeg.Tables.Groups.{HasLookups}
use libopenraw.Decompress.Ljpeg.Tables.Levels.{AllLookups, code_behind}

-- A fact of each code of a length is one of each entry.
All-entries :
    (Q : CodeEntry → Type 0) (huffval : List ℕ) (n l p code : ℕ)
    → ((i : ℕ)
        → i < n
        → Q (record { size = l; code = code + i; symbol = get_or huffval (p + i) 0 }))
    → All Q (entries huffval n l p code)
All-entries Q huffval zero l p code h = tt
All-entries Q huffval (suc n) l p code h =
    let here : code + 0 ≡ code = omega arith in
    let place : p + 0 ≡ p = omega arith in
    (
      rw (here, place) at (h 0 (omega arith)),
      All-entries Q huffval n l (p + 1) (code + 1) (λ i small.
          let up : code + 1 + i ≡ code + suc i = omega arith in
          let on : p + 1 + i ≡ p + suc i = omega arith in
          rw (up, on) (h (suc i) (omega (arith, small)))),
    )

module _ (t : HuffmanTable) where
  -- The bounds of the lengths below `l` are passed by what is at least `code`.
  abbrev pub Passes : ℕ → ℕ → Type 0
  Passes l code =
      (k i : ℕ)
      → suc k + i ≡ l
      → 1 ≤ i
      → (bound : ℤ) × (index t.maxcode i ≡ ok bound)
        × ((x : ℕ) → code ≤ x → ltb_ℤ bound (pos (x / 2 ^ suc k)) ≡ true)

  -- No byte before `d` more bits of a code that is at least `code` has a lookup.
  abbrev pub Cleared : ℕ → ℕ → Type 0
  Cleared d code = (x : ℕ) → code ≤ x → x < 2 ^ (8 + d) → index t.numbits (x / 2 ^ d) ≡ ok 0

  halved : (x k : ℕ) → x / 2 ^ suc k ≡ x / 2 / 2 ^ k
  halved x k = ap (λ p. x / p) (pow-suc 2 k ∙ omega arith) ∙ sym (div-div-eq-div-mul x 2 (2 ^ k))

  -- The bound of a length, which is passed by the codes behind it.
  bound_of :
      (l n p code : ℕ)
      → AtLength t.valptr t.mincode t.maxcode l n p code
      → (bound : ℤ) × (index t.maxcode l ≡ ok bound)
        × ((x : ℕ) → (code + n) * 2 ≤ x → ltb_ℤ bound (pos (x / 2 ^ 1)) ≡ true)
  bound_of l zero p code at = (negsuc 0, at, λ x h. lt→ltb _ _ (omega arith))
  bound_of l (suc n) p code at = (pos (code + n), at.2, λ x h. lt→ltb _ _ (omega (arith, h)))

  Passes-suc :
      (l n p code : ℕ)
      → 1 ≤ l
      → AtLength t.valptr t.mincode t.maxcode l n p code
      → Passes l code
      → Passes (l + 1) ((code + n) * 2)
  Passes-suc l n p code some_bits at h zero i sum low =
      let here : l ≡ i = omega (arith, sum) in
      subst
        (λ j.
          (bound : ℤ) × (index t.maxcode j ≡ ok bound)
          × ((x : ℕ) → (code + n) * 2 ≤ x → ltb_ℤ bound (pos (x / 2 ^ 1)) ≡ true))
        here (bound_of l n p code at)
  Passes-suc l n p code some_bits at h (suc k) i sum low =
      let (bound, is, passes) = h k i (omega (arith, sum)) low in
      (
        bound,
        is,
        λ x above.
            subst (λ y. ltb_ℤ bound (pos y) ≡ true) (sym (halved x (suc k)))
              (passes (x / 2) (omega (arith, above))),
      )

  Cleared-suc : (d n code : ℕ) → Cleared d code → Cleared (d + 1) ((code + n) * 2)
  Cleared-suc d n code h x above under =
      let up : d + 1 ≡ suc d = omega arith in
      let on : 8 + (d + 1) ≡ suc (8 + d) = omega arith in
      let small : x < 2 * 2 ^ (8 + d) =
        subst (λ p. x < p) (ap (λ i. 2 ^ i) on ∙ pow-suc 2 (8 + d) ∙ omega arith) under in
      subst (λ y. index t.numbits y ≡ ok 0) (sym (ap (λ i. x / 2 ^ i) up ∙ halved x d))
        (h (x / 2) (omega (arith, above)) (omega (arith, small)))

  -- A code of 9 bits or more.
  long_entry :
      (d p code n i : ℕ)
      → 1 ≤ d
      → d ≤ 8
      → AtLength t.valptr t.mincode t.maxcode (8 + d) n p code
      → code + n < 2 ^ (8 + d)
      → Passes (8 + d) code
      → Cleared d code
      → p + n ≤ length t.huffval
      → i < n
      → Codes t (get_or t.huffval (p + i) 0) (low_bits (8 + d) (code + i))
  long_entry d p code zero i some_more few at fits passes cleared room small =
      absurd (omega (arith, small))
  long_entry d p code (suc n) i some_more few at fits passes cleared room small =
      let c = code + i in
      let place : p + (c - code) ≡ p + i = omega arith in
      Codes.long d c (omega (arith, fits, small))
        (record {
          some_more = some_more;
          few = few;
          no_lookup = cleared c (omega arith) (omega (arith, fits, small));
          passes = λ k j sum.
              let (bound, is, above) = passes k (8 + j) (omega (arith, sum)) (omega arith) in
              (bound, is, above c (omega arith));
          stops = (pos (code + n), at.2, ge→ltb _ _ (omega (arith, small)));
          place = p;
          first = code;
          place_of = at.0;
          first_of = at.1;
          behind = omega arith;
          found = rw place (index_lem t.huffval (p + i) 0 (omega (arith, room, small)));
        })
        refl

  abbrev pub StandsFor : CodeEntry → Type 0
  StandsFor e = Codes t e.symbol (low_bits e.size e.code)

  length-sizes :
      (bits : List ℕ) (left l : ℕ)
      → length (sizes_from bits (suc left) l) ≡ count bits l + length (sizes_from bits left (l + 1))
  length-sizes bits left l = omega (
    arith,
    length-append (replicate (count bits l) l) (sizes_from bits left (l + 1)),
    length-replicate (count bits l) l,
  )

  -- The lengths from 9 on.
  walk_long :
      (bits : List ℕ) (left d l p code : ℕ)
      → 1 ≤ d
      → l ≡ 8 + d
      → l + left ≡ 17
      → IsBounded t.valptr t.mincode t.maxcode bits left l p code
      → IsFitting bits left l code
      → Passes l code
      → Cleared d code
      → p + length (sizes_from bits left l) ≤ length t.huffval
      → All StandsFor (book_from bits t.huffval left l p code)
  walk_long bits zero d l p code some_more is top bounded fits passes cleared room = tt
  walk_long bits (suc left) d l p code some_more is top bounded fits passes cleared room =
      let n = count bits l in
      let total = length-sizes bits left l in
      All-append StandsFor (entries t.huffval n l p code)
        (book_from bits t.huffval left (l + 1) (p + n) ((code + n) * 2))
        (All-entries StandsFor t.huffval n l p code (λ i small.
          subst (λ k. Codes t (get_or t.huffval (p + i) 0) (low_bits k (code + i))) (sym is)
            (long_entry d p code n i some_more (omega (arith, is, top))
              (subst (λ k. AtLength t.valptr t.mincode t.maxcode k n p code) is bounded.0)
              (subst (λ k. code + n < 2 ^ k) is fits.0) (subst (λ k. Passes k code) is passes)
              cleared (omega (arith, room, total)) small)))
        (walk_long bits left (d + 1) (l + 1) (p + n) ((code + n) * 2) (omega arith)
          (omega (arith, is)) (omega (arith, top)) bounded.1 fits.1
          (Passes-suc l n p code (omega (arith, is, some_more)) bounded.0 passes)
          (Cleared-suc d n code cleared) (omega (arith, room, total)))

  -- A code of at most 8 bits.
  short_entry :
      (l p code n i : ℕ)
      → 1 ≤ l
      → l ≤ 8
      → HasLookups t.numbits t.value t.huffval l n p code
      → code + n < 2 ^ l
      → p + n ≤ length t.huffval
      → i < n
      → Codes t (get_or t.huffval (p + i) 0) (low_bits l (code + i))
  short_entry l p code n i some_bits few found fits room small =
      let c = code + i in
      let place : p + (c - code) ≡ p + i = omega arith in
      let symbol = index_lem t.huffval (p + i) 0 (omega (arith, room, small)) in
      Codes.short l c
        (record {
          some_bits = some_bits;
          few = few;
          under = omega (arith, fits, small);
          size = λ v under. (found c v (omega arith) (omega (arith, small)) under).0;
          found = λ v under.
              (found c v (omega arith) (omega (arith, small)) under).1
              ∙ ap (index t.huffval) place
              ∙ symbol;
        })
        refl

  -- The lengths up to 8, and then the others.
  pub walk_short :
      (bits : List ℕ) (big left l p code : ℕ)
      → 1 ≤ l
      → l + left ≡ 9
      → big ≡ left + 8
      → AllLookups t.numbits t.value t.huffval bits left l p code
      → IsBounded t.valptr t.mincode t.maxcode bits big l p code
      → IsFitting bits big l code
      → Passes l code
      → Cleared 1 (code_behind bits left l code)
      → p + length (sizes_from bits big l) ≤ length t.huffval
      → All StandsFor (book_from bits t.huffval big l p code)
  walk_short bits big zero l p code some_bits top is found bounded fits passes cleared room =
      walk_long bits big 1 l p code (omega arith) (omega (arith, top)) (omega (arith, top, is))
        bounded fits passes cleared room
  walk_short bits zero (suc left) l p code some_bits top is found bounded fits passes cleared room =
      absurd (omega (arith, is))
  walk_short bits (suc big) (suc left) l p code some_bits top is found bounded fits passes cleared
        room =
      let n = count bits l in
      let total = length-sizes bits big l in
      All-append StandsFor (entries t.huffval n l p code)
        (book_from bits t.huffval big (l + 1) (p + n) ((code + n) * 2))
        (All-entries StandsFor t.huffval n l p code (λ i small.
          short_entry l p code n i some_bits (omega (arith, top)) found.0 fits.0
            (omega (arith, room, total)) small))
        (walk_short bits big left (l + 1) (p + n) ((code + n) * 2) (omega arith)
          (omega (arith, top)) (omega (arith, is)) found.1 bounded.1 fits.1
          (Passes-suc l n p code some_bits bounded.0 passes) cleared (omega (arith, room, total)))
