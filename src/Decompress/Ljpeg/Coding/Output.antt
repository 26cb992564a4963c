-- ===== src/Decompress/Ljpeg/Coding/Output.antt =====
-- The output of a row: `pm_put_row` extends the buffer by the samples of the row in order.
use libopenraw.Prelude.{
  ℕ, zero, suc, ◌+◌, ◌-◌, ◌≤◌, ◌<◌, ◌≡◌, refl, sym, subst, ap, ◌∙◌, List, [], ◌∷◌, ◌++◌,
  append_assoc, append-nil, map, le→leb, length, take, Result, ok, err, panic, ◌>>=◌, bind_assoc,
  bind_cong, index, shl, arith,
}
use libopenraw.Decompress.SlicedBuffer.{SlicedBuffer, extend}
use libopenraw.Decompress.SlicedBuffer.Pieces.{extend-append}
use libopenraw.Decompress.Ljpeg.Rows.{Mcu, sample, put_columns, pm_put_row}
use libopenraw.Decompress.Ljpeg.Samples.{sample-HasSample}

abbrev pub tabulate : ℕ → (ℕ → ℕ) → List ℕ
tabulate zero f = []
tabulate (suc n) f = f 0 ∷ tabulate n (λ i. f (suc i))

-- The values of a column, with the point transform undone.
abbrev pub column_values : (ℕ → ℕ → ℕ) → ℕ → ℕ → ℕ → List ℕ
column_values X comps pt col = map (λ v. shl 16 v pt) (tabulate comps (X col))

abbrev pub row_values : (ℕ → ℕ → ℕ) → ℕ → ℕ → ℕ → ℕ → List ℕ
row_values X comps pt zero col = []
row_values X comps pt (suc left) col =
    column_values X comps pt col ++ row_values X comps pt left (col + 1)

take-tabulate :
    (n : ℕ) (f : ℕ → ℕ) (xs : List ℕ)
    → ((i : ℕ) → i < n → index xs i ≡ ok (f i))
    → (n ≤ length xs) × (take n xs ≡ tabulate n f)
unfolding index
take-tabulate zero f xs h = (omega arith, refl)
take-tabulate (suc n) f [] h = absurd (cc (h 0 (omega arith)))
take-tabulate (suc n) f (x ∷ xs) h =
    let (room, rest) =
      take-tabulate n (λ i. f (suc i)) xs (λ i small. h (suc i) (omega (arith, small))) in
    let first : x ≡ f 0 = cc (h 0 (omega arith)) in (omega (arith, room), rw (rest, first) refl)

-- The current row as the code sees it.
pub record IsRowOf (rows : List (List Mcu)) (row width comps : ℕ) (X : ℕ → ℕ → ℕ) : Type 0 where
  pub buf : List Mcu
  pub at : index rows row ≡ ok buf
  pub columns :
      (c : ℕ)
      → c < width
      → (mcu : Mcu) × (index buf c ≡ ok mcu) × ((i : ℕ) → i < comps → index mcu i ≡ ok (X c i))

pub sample-IsRowOf :
    (rows : List (List Mcu)) (row width comps : ℕ) (X : ℕ → ℕ → ℕ)
    → 1 ≤ width
    → 1 ≤ comps
    → ((c i : ℕ) → c < width → i < comps → sample rows row c i ≡ ok (X c i))
    → IsRowOf rows row width comps X
sample-IsRowOf rows row width comps X wide some_comps all =
    let first = sample-HasSample rows row 0 0 (all 0 0 (omega arith) (omega arith)) in
    record {
      buf = first.buf;
      at = first.at_row;
      columns = λ c inside.
          let h = sample-HasSample rows row c 0 (all c 0 inside (omega arith)) in
          let same : h.buf ≡ first.buf = cc (h.at_row, first.at_row) in
          (
            h.mcu,
            ap (λ b. index b c) (sym same) ∙ h.at_col,
            λ i small.
                let g = sample-HasSample rows row c i (all c i inside small) in
                let same_buf : g.buf ≡ h.buf = cc (g.at_row, h.at_row) in
                let at : index h.buf c ≡ ok g.mcu = ap (λ b. index b c) (sym same_buf) ∙ g.at_col in
                let same_mcu : g.mcu ≡ h.mcu = cc (at, h.at_col) in
                ap (λ b. index b i) (sym same_mcu) ∙ g.at_comp,
          );
    }

module _ (buf : List Mcu) (comps pt width : ℕ) (X : ℕ → ℕ → ℕ)
    (columns : (c : ℕ)
      → c < width
      → (mcu : Mcu) × (index buf c ≡ ok mcu) × ((i : ℕ) → i < comps → index mcu i ≡ ok (X c i)))
    (out : SlicedBuffer ℕ) where
  -- One column.
  put_one :
      (left c : ℕ) (o : SlicedBuffer ℕ)
      → c < width
      → put_columns (suc left) c buf comps pt o
        ≡ (extend (column_values X comps pt c) o >>= put_columns left (c + 1) buf comps pt)
  unfolding put_columns
  put_one left c o inside =
      let (mcu, at, samples) = columns c inside in
      let (room, taken) = take-tabulate comps (X c) mcu samples in
      rw (at, le→leb comps (length mcu) room, taken) refl

  -- The values of the columns go behind those that were put out.
  put_columns_lem :
      (left c : ℕ) (before : List ℕ)
      → c + left ≡ width
      → (extend before out >>= put_columns left c buf comps pt)
        ≡ extend (before ++ row_values X comps pt left c) out
  unfolding put_columns
  put_columns_lem zero c before sum =
      stays (extend before out) ∙ ap (λ t. extend t out) (sym (append-nil before))
    where
      stays : (r : Result (SlicedBuffer ℕ)) → (r >>= λ o. ok o) ≡ r
      stays (ok a) = refl
      stays (err e) = refl
      stays panic = refl
  put_columns_lem (suc left) c before sum =
      let values : List ℕ = column_values X comps pt c in
      bind_cong (extend before out) (λ o. put_one left c o (omega (arith, sum)))
      ∙ sym (bind_assoc (extend before out) (extend values) (put_columns left (c + 1) buf comps pt))
      ∙ ap (λ r. r >>= put_columns left (c + 1) buf comps pt)
          (sym (extend-append before values out))
      ∙ put_columns_lem left (c + 1) (before ++ values) (omega (arith, sum))
      ∙ ap (λ t. extend t out) (append_assoc before values (row_values X comps pt left (c + 1)))

  pub pm_put_row_lem :
      (before : List ℕ)
      → (extend before out >>= pm_put_row buf comps width pt)
        ≡ extend (before ++ row_values X comps pt width 0) out
  unfolding pm_put_row
  pm_put_row_lem before = put_columns_lem width 0 before (omega arith)

  -- The first row, with nothing before it.
  pub pm_put_row_first :
      1 ≤ width → pm_put_row buf comps width pt out ≡ extend (row_values X comps pt width 0) out
  unfolding pm_put_row
  pm_put_row_first wide =
      let left = width - 1 in
      let size : suc left ≡ width = omega (arith, wide) in
      subst (λ w. put_columns w 0 buf comps pt out ≡ extend (row_values X comps pt w 0) out) size
        (put_one left 0 out (omega (arith, wide))
          ∙ put_columns_lem left (0 + 1) (column_values X comps pt 0) (omega (arith, size)))
