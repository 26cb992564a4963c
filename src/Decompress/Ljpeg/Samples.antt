-- ===== src/Decompress/Ljpeg/Samples.antt =====
-- Writing a sample of the two rows changes that sample and no other.
use libopenraw.Prelude.{
  ℕ, ◌<◌, ◌≡◌, ◌≢◌, ◌⊎◌, inl, inr, refl, sym, subst, Bool-cases, true, false, ◌==◌, ap, List,
  length, set, get_elem?-set_self, get_elem?-set_ne, [], ◌∷◌, zero, suc, >>=-ok_inv, ok, or_panic,
  index, update, update_lem, arith,
}
use libopenraw.Decompress.Ljpeg.Rows.{Mcu, sample, set_sample}

index-lt {ℓ} : {A : Type ℓ} (xs : List A) (i : ℕ) {x : A} → index xs i ≡ ok x → i < length xs
unfolding index
index-lt [] i e = cc
index-lt (y ∷ ys) zero e = omega arith
index-lt (y ∷ ys) (suc i) e = omega (arith, index-lt ys i e)

-- Where an element was read, one can be written.
index-update {ℓ} :
    {A : Type ℓ} (xs : List A) (i : ℕ) (v : A) {x : A}
    → index xs i ≡ ok x
    → (update xs i v ≡ ok (set xs i v)) × (index (set xs i v) i ≡ ok v)
unfolding index
index-update xs i v e =
    let inside = index-lt xs i e in
    (update_lem xs i v inside, ap or_panic (get_elem?-set_self xs i v inside))

index-other {ℓ} :
    {A : Type ℓ} (xs : List A) (i j : ℕ) (v : A) → i ≢ j → index (set xs i v) j ≡ index xs j
unfolding index
index-other xs i j v ne = ap or_panic (get_elem?-set_ne xs i j v ne)

-- What was read of a row, a column and a component.
pub record HasSample (rows : List (List Mcu)) (row col comp v : ℕ) : Type 0 where
  pub buf : List Mcu
  pub mcu : Mcu
  pub at_row : index rows row ≡ ok buf
  pub at_col : index buf col ≡ ok mcu
  pub at_comp : index mcu comp ≡ ok v

pub sample-HasSample :
    (rows : List (List Mcu)) (row col comp : ℕ) {v : ℕ}
    → sample rows row col comp ≡ ok v
    → HasSample rows row col comp v
unfolding sample
sample-HasSample rows row col comp e =
    let (buf, at_row, e1) = >>=-ok_inv (index rows row) _ e in
    let (mcu, at_col, e2) = >>=-ok_inv (index buf col) _ e1 in
    record { buf = buf; mcu = mcu; at_row = at_row; at_col = at_col; at_comp = e2 }

-- The sample was written, and the others are as they were.
pub record IsWritten (rows : List (List Mcu)) (row col comp v : ℕ) : Type 0 where
  pub after : List (List Mcu)
  pub returns : set_sample rows row col comp v ≡ ok after
  pub written : sample after row col comp ≡ ok v
  pub others :
      (r c m : ℕ) → (r ≢ row) ⊎ (c ≢ col) ⊎ (m ≢ comp) → sample after r c m ≡ sample rows r c m

pub set_sample-IsWritten :
    (rows : List (List Mcu)) (row col comp v : ℕ) {x : ℕ}
    → sample rows row col comp ≡ ok x
    → IsWritten rows row col comp v
unfolding set_sample
set_sample-IsWritten rows row col comp v {x} e =
    let h = sample-HasSample rows row col comp e in
    let (put_comp, got_comp) = index-update h.mcu comp v h.at_comp in
    let mcu' = set h.mcu comp v in
    let (put_col, got_col) = index-update h.buf col mcu' h.at_col in
    let buf' = set h.buf col mcu' in
    let (put_row, got_row) = index-update rows row buf' h.at_row in
    record {
      after = set rows row buf';
      returns = rw (h.at_row, h.at_col, put_comp, put_col, put_row) refl;
      written = unfold sample in rw (got_row, got_col, got_comp) refl;
      others = λ r c m ne. others h got_row got_col r c m ne;
    }
  where
    other_rows :
        (buf' : List Mcu) (r c m : ℕ)
        → r ≢ row
        → sample (set rows row buf') r c m ≡ sample rows r c m
    other_rows buf' r c m ne =
        unfold sample in rw (index-other rows row r buf' (λ q. ne (sym q))) refl

    other_cols :
        (buf : List Mcu) (mcu' : Mcu) (c m : ℕ)
        → index rows row ≡ ok buf
        → index (set rows row (set buf col mcu')) row ≡ ok (set buf col mcu')
        → c ≢ col
        → sample (set rows row (set buf col mcu')) row c m ≡ sample rows row c m
    other_cols buf mcu' c m at got ne =
        unfold sample in rw (got, at, index-other buf col c mcu' (λ q. ne (sym q))) refl

    others :
        (h : HasSample rows row col comp x)
        → index (set rows row (set h.buf col (set h.mcu comp v))) row
          ≡ ok (set h.buf col (set h.mcu comp v))
        → index (set h.buf col (set h.mcu comp v)) col ≡ ok (set h.mcu comp v)
        → (r c m : ℕ) → (r ≢ row) ⊎ (c ≢ col) ⊎ (m ≢ comp)
        → sample (set rows row (set h.buf col (set h.mcu comp v))) r c m ≡ sample rows r c m
    others h got_row got_col r c m ne = elim (Bool-cases (r == row)) [
      | inr e ↦ other_rows (set h.buf col (set h.mcu comp v)) r c m (unequal r row e)
      | inl e ↦
          let after = set rows row (set h.buf col (set h.mcu comp v)) in
          let here : r ≡ row = equal r row e in
          subst (λ k. sample after k c m ≡ sample rows k c m) (sym here)
            (elim (Bool-cases (c == col)) [
              | inr f ↦ other_cols h.buf (set h.mcu comp v) c m h.at_row got_row (unequal c col f)
              | inl f ↦
                  let there : c ≡ col = equal c col f in
                  let other : m ≢ comp = third r c m ne here there in
                  subst (λ k. sample after row k m ≡ sample rows row k m) (sym there)
                    (unfold sample in
                      rw
                        (
                          got_row,
                          got_col,
                          h.at_row,
                          h.at_col,
                          index-other h.mcu comp m v (λ q. other (sym q)),
                        )
                        refl)
            ])
    ]
      where
        equal : (a b : ℕ) → (a == b) ≡ true → a ≡ b
        equal a b e = ground (arith, e)

        unequal : (a b : ℕ) → (a == b) ≡ false → a ≢ b
        unequal a b e q = ground (arith, e, q)

        third : (r c m : ℕ) → (r ≢ row) ⊎ (c ≢ col) ⊎ (m ≢ comp) → r ≡ row → c ≡ col → m ≢ comp
        third r c m (inl p) a b = absurd (p a)
        third r c m (inr (inl p)) a b = absurd (p b)
        third r c m (inr (inr p)) a b = p
