-- ===== src/Decompress/Ljpeg/Tables/Bounds.antt =====
-- Figure F.15: the bounds of the codes of each length, and their places.
use libopenraw.Prelude.{
  ℕ, zero, suc, ◌+◌, ◌-◌, ◌*◌, ◌≤◌, ◌<◌, ◌≡◌, refl, sym, ap, ◌∙◌, false, List, [], ◌∷◌, ◌++◌,
  append_assoc, ◌==◌, ge→ltb, length, length-append, length-set, set, get_elem?-set_self,
  get_elem?-set_ne, drop, drop-drop, drop-length, index-drop, Result, ok, or_panic, index,
  index_lem, update_lem, ℤ, pos, negsuc, arith, ◌>>=◌,
}
use libopenraw.Decompress.Ljpeg.Huffman.{HuffmanTable, write_decoding, write_all_decoding}
use libopenraw.Decompress.Ljpeg.Tables.{count, ascending, codes_from}
use libopenraw.Decompress.Ljpeg.Tables.Numbered.{length-ascending}

-- What stands at length `l` where its `n` codes begin at place `p` with `code`.
abbrev pub AtLength : List ℕ → List ℤ → List ℤ → ℕ → ℕ → ℕ → ℕ → Type 0
AtLength valptr mincode maxcode l zero p code = index maxcode l ≡ ok (negsuc 0)
AtLength valptr mincode maxcode l (suc n) p code =
    (index valptr l ≡ ok p)
    × (index mincode l ≡ ok (pos code))
    × (index maxcode l ≡ ok (pos (code + n)))

abbrev pub IsBounded : List ℕ → List ℤ → List ℤ → List ℕ → ℕ → ℕ → ℕ → ℕ → Type 0
IsBounded valptr mincode maxcode bits zero l p code = Unit {0}
IsBounded valptr mincode maxcode bits (suc left) l p code =
    AtLength valptr mincode maxcode l (count bits l) p code
    × IsBounded valptr mincode maxcode bits left (l + 1) (p + count bits l)
        ((code + count bits l) * 2)

-- A list that was changed from place `l` on.
abbrev pub SameBelow : {A : Type 0} → ℕ → List A → List A → Type 0
SameBelow l xs ys = (i : ℕ) → i < l → index ys i ≡ index xs i

-- The tables of bounds, and what they were below length `l`.
pub record IsDecoding {R : Type 0} (wrap : HuffmanTable → R) (P : List ℕ → List ℤ → List ℤ → Type 0)
    (l : ℕ) (t : HuffmanTable) (step : Result R) : Type 0 where
  pub valptr : List ℕ
  pub mincode : List ℤ
  pub maxcode : List ℤ
  pub returns :
      step ≡ ok (wrap (record t { valptr = valptr; mincode = mincode; maxcode = maxcode }))
  pub places : length valptr ≡ 17
  pub firsts : length mincode ≡ 17
  pub lasts : length maxcode ≡ 18
  pub same_places : SameBelow l t.valptr valptr
  pub same_firsts : SameBelow l t.mincode mincode
  pub same_lasts : SameBelow l t.maxcode maxcode
  pub holds : P valptr mincode maxcode

pub index-set_self :
    {A : Type 0} (xs : List A) (i : ℕ) (v : A) → i < length xs → index (set xs i v) i ≡ ok v
unfolding index
index-set_self xs i v h = ap or_panic (get_elem?-set_self xs i v h)

pub set-SameBelow : {A : Type 0} (xs : List A) (i : ℕ) (v : A) → SameBelow i xs (set xs i v)
unfolding index
set-SameBelow xs i v j h = ap or_panic (get_elem?-set_ne xs i j v (λ e. omega (arith, e, h)))

ascending_last : (n code : ℕ) (xs : List ℕ) → index (ascending (suc n) code ++ xs) n ≡ ok (code + n)
unfolding index
ascending_last zero code xs = ap ok (omega arith)
ascending_last (suc n) code xs = ascending_last n (code + 1) xs ∙ ap ok (omega arith)

pub index-drop_add : (xs : List ℕ) (p n : ℕ) → index (drop p xs) n ≡ index xs (p + n)
unfolding index
index-drop_add xs zero n = ap (index xs) (omega arith)
index-drop_add [] (suc p) n = refl
index-drop_add (x ∷ xs) (suc p) n =
    index-drop_add xs p n ∙ ap (λ i. index (x ∷ xs) i) (sym (suc_add p n))
  where
    suc_add : (p n : ℕ) → suc p + n ≡ suc (p + n)
    suc_add p n = omega arith

-- One length.
write_decoding-IsDecoding :
    (huffcode : List ℕ) (l p n code : ℕ) (t : HuffmanTable) (others : List ℕ)
    → l < 17
    → length t.valptr ≡ 17
    → length t.mincode ≡ 17
    → length t.maxcode ≡ 18
    → length t.bits ≡ 17
    → count t.bits l ≡ n
    → p + n ≤ 256
    → drop p huffcode ≡ ascending n code ++ others
    → IsDecoding
        (λ t'. (p + n, t'))
        (λ v f m. AtLength v f m l n p code)
        l
        t
        (write_decoding huffcode l p t)
unfolding write_decoding
write_decoding-IsDecoding huffcode l p zero code t others under a b c d counted fits reads =
    let mx : List ℤ = set t.maxcode l (negsuc 0) in
    rw
      (
        index_lem t.bits l 0 (omega (arith, under, d)),
        counted,
        ◌>>=◌,
        update_lem t.maxcode l (negsuc 0) (omega (arith, under, c)),
      )
      (record {
        valptr = t.valptr;
        mincode = t.mincode;
        maxcode = mx;
        returns = ap (λ i. ok (i, record t { maxcode = mx })) (omega arith);
        places = a;
        firsts = b;
        lasts = length-set t.maxcode l (negsuc 0) ∙ c;
        same_places = λ i h. refl;
        same_firsts = λ i h. refl;
        same_lasts = set-SameBelow t.maxcode l (negsuc 0);
        holds = index-set_self t.maxcode l (negsuc 0) (omega (arith, under, c));
      })
write_decoding-IsDecoding huffcode l p (suc n) code t others under a b c d counted fits reads =
    let mn : List ℤ = set t.mincode l (pos code) in
    let mx : List ℤ = set t.maxcode l (pos (code + n)) in
    let some_codes : (suc n == 0) ≡ false = ground arith in
    let (first, _) = index-drop huffcode p reads in
    let place : p + suc n - 1 ≡ p + n = omega arith in
    let last : index huffcode (p + n) ≡ ok (code + n) =
      sym (index-drop_add huffcode p n)
      ∙ ap (λ t. index t n) reads
      ∙ ascending_last n code others in
    rw
      (
        index_lem t.bits l 0 (omega (arith, under, d)),
        counted,
        ◌>>=◌,
        some_codes,
        update_lem t.valptr l p (omega (arith, under, a)),
        first,
        update_lem t.mincode l (pos code) (omega (arith, under, b)),
        ge→ltb 256 (p + suc n) fits,
        place,
        last,
        update_lem t.maxcode l (pos (code + n)) (omega (arith, under, c)),
      )
      (record {
        valptr = set t.valptr l p;
        mincode = mn;
        maxcode = mx;
        returns = refl;
        places = length-set t.valptr l p ∙ a;
        firsts = length-set t.mincode l (pos code) ∙ b;
        lasts = length-set t.maxcode l (pos (code + n)) ∙ c;
        same_places = set-SameBelow t.valptr l p;
        same_firsts = set-SameBelow t.mincode l (pos code);
        same_lasts = set-SameBelow t.maxcode l (pos (code + n));
        holds = (
          index-set_self t.valptr l p (omega (arith, under, a)),
          index-set_self t.mincode l (pos code) (omega (arith, under, b)),
          index-set_self t.maxcode l (pos (code + n)) (omega (arith, under, c)),
        );
      })

-- The entries at a length stay as they are when only longer ones change.
pub AtLength-SameBelow :
    (v v' : List ℕ) (f f' m m' : List ℤ) (l n p code : ℕ)
    → SameBelow (l + 1) v v'
    → SameBelow (l + 1) f f'
    → SameBelow (l + 1) m m'
    → AtLength v f m l n p code
    → AtLength v' f' m' l n p code
AtLength-SameBelow v v' f f' m m' l zero p code a b c at = c l (omega arith) ∙ at
AtLength-SameBelow v v' f f' m m' l (suc n) p code a b c at =
    (a l (omega arith) ∙ at.0, b l (omega arith) ∙ at.1, c l (omega arith) ∙ at.2)

-- Every length from `l` on.
pub write_all_decoding-IsDecoding :
    (bits huffcode : List ℕ) (left l p code : ℕ) (t : HuffmanTable) (others : List ℕ)
    → l + left ≡ 17
    → length t.valptr ≡ 17
    → length t.mincode ≡ 17
    → length t.maxcode ≡ 18
    → length bits ≡ 17
    → t.bits ≡ bits
    → p + length (codes_from bits left l code) ≤ 256
    → drop p huffcode ≡ codes_from bits left l code ++ others
    → IsDecoding
        (λ t'. t')
        (λ v f m. IsBounded v f m bits left l p code)
        l
        t
        (write_all_decoding huffcode left l p t)
unfolding write_all_decoding
write_all_decoding-IsDecoding bits huffcode zero l p code t others top a b c d same fits reads =
    record {
      valptr = t.valptr;
      mincode = t.mincode;
      maxcode = t.maxcode;
      returns = refl;
      places = a;
      firsts = b;
      lasts = c;
      same_places = λ i h. refl;
      same_firsts = λ i h. refl;
      same_lasts = λ i h. refl;
      holds = tt;
    }
write_all_decoding-IsDecoding bits huffcode (suc left) l p code t others top a b c d same fits
      reads =
    let n = count bits l in
    let here : List ℕ = ascending n code in
    let next : List ℕ = codes_from bits left (l + 1) ((code + n) * 2) in
    let size = length-ascending n code in
    let total = length-append here next in
    let reads' = reads ∙ append_assoc here next others in
    let one =
      write_decoding-IsDecoding huffcode l p n code t (next ++ others) (omega (arith, top)) a b c
        (ap length same ∙ d) (ap (λ t. count t l) same) (omega (arith, fits, total, size)) reads' in
    let t' : HuffmanTable = record t {
      valptr = one.valptr;
      mincode = one.mincode;
      maxcode = one.maxcode;
    } in
    let behind : drop (p + n) huffcode ≡ next ++ others =
      drop-drop huffcode p n
      ∙ ap (drop n) reads'
      ∙ drop-length here (next ++ others) n (sym size) in
    let all =
      write_all_decoding-IsDecoding bits huffcode left (l + 1) (p + n) ((code + n) * 2) t' others
        (omega (arith, top)) one.places one.firsts one.lasts d same
        (omega (arith, fits, total, size)) behind in
    rw one.returns (record {
      valptr = all.valptr;
      mincode = all.mincode;
      maxcode = all.maxcode;
      returns = all.returns;
      places = all.places;
      firsts = all.firsts;
      lasts = all.lasts;
      same_places = λ i h. all.same_places i (omega (arith, h)) ∙ one.same_places i h;
      same_firsts = λ i h. all.same_firsts i (omega (arith, h)) ∙ one.same_firsts i h;
      same_lasts = λ i h. all.same_lasts i (omega (arith, h)) ∙ one.same_lasts i h;
      holds = (
        AtLength-SameBelow one.valptr all.valptr one.mincode all.mincode one.maxcode all.maxcode l n
            p code all.same_places all.same_firsts all.same_lasts one.holds,
        all.holds,
      );
    })
