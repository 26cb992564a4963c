-- ===== src/Decompress/Ljpeg/Coding/Columns.antt =====
-- The loops over the components and the columns of a row.
use libopenraw.Prelude.{
  ℕ, zero, suc, ◌+◌, ◌≤◌, ◌<◌, ◌≡◌, ◌≢◌, inl, inr, refl, sym, subst, ap, ◌∙◌, Bool, Bool-cases,
  ◌==◌, List, [], ◌++◌, append_assoc, ltb, ltb→lt, ltb→ge, Result, ok, arith,
}
use libopenraw.Decompress.BitReader.{LJpegBitReader}
use libopenraw.Decompress.BitReader.Stream.{IsBefore}
use libopenraw.Decompress.Ljpeg.Rows.{LJpeg, Row, sample, each_comp, each_col}
use libopenraw.Decompress.Ljpeg.Coding.{IsDecoded}

-- The bits of `left` components of a column, from `comp` on.
abbrev pub column_bits : (ℕ → ℕ → List Bool) → ℕ → ℕ → ℕ → List Bool
column_bits B col zero comp = []
column_bits B col (suc left) comp = B col comp ++ column_bits B col left (comp + 1)

-- The bits of `left` columns, from `col` on.
abbrev pub columns_bits : (ℕ → ℕ → List Bool) → ℕ → ℕ → ℕ → List Bool
columns_bits B comps zero col = []
columns_bits B comps (suc left) col =
    column_bits B col comps 0 ++ columns_bits B comps left (col + 1)

-- `U` is the row above and `X` the row that is coded, of `width` columns of `comps` components; `B`
-- has the bits of its samples.
module _ (m : ℕ) (rest : List ℕ) (lj : LJpeg) (U X : ℕ → ℕ → ℕ) (B : ℕ → ℕ → List Bool)
    (width comps : ℕ) where
  -- The columns before `n` and `k` components of column `n` are decoded, over the row above.
  pub record IsDone (n k : ℕ) (rows : List (List (List ℕ))) : Type 0 where
    pub above : (c i : ℕ) → c < width → i < comps → sample rows lj.prev_row c i ≡ ok (U c i)
    pub here : (c i : ℕ) → c < width → i < comps → (v : ℕ) × (sample rows lj.cur_row c i ≡ ok v)
    pub done : (c i : ℕ) → c < n → c < width → i < comps → sample rows lj.cur_row c i ≡ ok (X c i)
    pub now : (i : ℕ) → i < k → i < comps → sample rows lj.cur_row n i ≡ ok (X n i)

  -- A step that went on to column `n` and component `k`.
  pub record IsOn (n k : ℕ) (more : List Bool) (step : Result Row) : Type 0 where
    pub rows : List (List (List ℕ))
    pub reader : LJpegBitReader
    pub returns : step ≡ ok (record lj { mcu_row = rows }, reader)
    pub reached : IsDone n k rows
    pub before : IsBefore m rest more reader

  -- A step that decodes each component of column `n`.
  abbrev pub Decodes : ℕ → (ℕ → Row → Result Row) → Type 0
  Decodes n f =
      (k : ℕ) (rows : List (List (List ℕ))) (r : LJpegBitReader) (more : List Bool)
      → k < comps
      → IsDone n k rows
      → IsBefore m rest (B n k ++ more) r
      → IsOn n (k + 1) more (f k (record lj { mcu_row = rows }, r))

  -- A sample that was decoded.
  pub IsDecoded-IsOn :
      (n k : ℕ) (rows : List (List (List ℕ))) (more : List Bool) (step : Result Row)
      → lj.cur_row ≢ lj.prev_row
      → k < comps
      → n < width
      → IsDone n k rows
      → IsDecoded m rest (record lj { mcu_row = rows }) n k (X n k) more step
      → IsOn n (k + 1) more step
  IsDecoded-IsOn n k rows more step apart inside column before d = record {
    rows = d.rows;
    reader = d.reader;
    returns = d.returns;
    before = d.before;
    reached = record {
      above = λ c i a b. d.others lj.prev_row c i (inl (λ e. apart (sym e))) ∙ before.above c i a b;
      here = λ c i a b. any c i a b;
      done = λ c i e a b.
          d.others lj.cur_row c i (inr (inl (λ q. omega (arith, e, q)))) ∙ before.done c i e a b;
      now = λ i e b. elim (Bool-cases (ltb i k)) [
        | inl g ↦
            let less = ltb→lt i k g in
            d.others lj.cur_row n i (inr (inr (λ q. omega (arith, less, q)))) ∙ before.now i less b
        | inr g ↦
            let same : i ≡ k = omega (arith, e, ltb→ge i k g) in
            subst (λ j. sample d.rows lj.cur_row n j ≡ ok (X n j)) (sym same) d.written
      ];
    };
  }
    where
      any : (c i : ℕ) → c < width → i < comps → (v : ℕ) × (sample d.rows lj.cur_row c i ≡ ok v)
      any c i a b = elim (Bool-cases (c == n)) [
        | inr f ↦
            let (v, e) = before.here c i a b in
            (v, d.others lj.cur_row c i (inr (inl (λ q. ground (arith, f, q)))) ∙ e)
        | inl f ↦ elim (Bool-cases (i == k)) [
          | inr g ↦
              let (v, e) = before.here c i a b in
              (v, d.others lj.cur_row c i (inr (inr (λ q. ground (arith, g, q)))) ∙ e)
          | inl g ↦
              let col : c ≡ n = ground (arith, f) in
              let comp : i ≡ k = ground (arith, g) in
              (
                X n k,
                ap (λ j. sample d.rows lj.cur_row j i) col
                    ∙ ap (λ j. sample d.rows lj.cur_row n j) comp
                    ∙ d.written,
              )
        ]
      ]

  -- All components of a column.
  pub each_comp-IsOn :
      (n : ℕ) (f : ℕ → Row → Result Row) (left k : ℕ) (rows : List (List (List ℕ)))
      (r : LJpegBitReader) (more : List Bool)
      → Decodes n f
      → k + left ≡ comps
      → IsDone n k rows
      → IsBefore m rest (column_bits B n left k ++ more) r
      → IsOn n comps more (each_comp f left k (record lj { mcu_row = rows }, r))
  unfolding each_comp
  each_comp-IsOn n f zero k rows r more step sum before bits =
      let all : k ≡ comps = omega (arith, sum) in
      record {
        rows = rows;
        reader = r;
        returns = refl;
        reached = subst (λ j. IsDone n j rows) all before;
        before = bits;
      }
  each_comp-IsOn n f (suc left) k rows r more step sum before bits =
      let s = step k rows r (column_bits B n left (k + 1) ++ more) (omega (arith, sum)) before (
        subst (λ b. IsBefore m rest b r) (append_assoc (B n k) (column_bits B n left (k + 1)) more)
          bits) in
      rw s.returns (
        each_comp-IsOn n f left (k + 1) s.rows s.reader more step (omega (arith, sum)) s.reached
          s.before)

  -- A finished column.
  pub IsDone-suc :
      (n : ℕ) (rows : List (List (List ℕ))) → IsDone n comps rows → IsDone (n + 1) 0 rows
  IsDone-suc n rows before = record {
    above = before.above;
    here = before.here;
    done = λ c i e a b. elim (Bool-cases (ltb c n)) [
      | inl g ↦ before.done c i (ltb→lt c n g) a b
      | inr g ↦
          let same : c ≡ n = omega (arith, e, ltb→ge c n g) in
          subst (λ j. sample rows lj.cur_row j i ≡ ok (X j i)) (sym same) (before.now i b b)
    ];
    now = λ i e b. absurd (omega (arith, e));
  }

  -- All columns that are left.
  pub each_col-IsOn :
      (g : ℕ → Row → Result Row) (left n : ℕ) (rows : List (List (List ℕ))) (r : LJpegBitReader)
      (more : List Bool)
      → ((c : ℕ) (rows : List (List (List ℕ))) (r : LJpegBitReader) (more : List Bool)
          → n ≤ c
          → c < width
          → IsDone c 0 rows
          → IsBefore m rest (column_bits B c comps 0 ++ more) r
          → IsOn c comps more (g c (record lj { mcu_row = rows }, r)))
      → n + left ≡ width
      → IsDone n 0 rows
      → IsBefore m rest (columns_bits B comps left n ++ more) r
      → IsOn width 0 more (each_col g left n (record lj { mcu_row = rows }, r))
  unfolding each_col
  each_col-IsOn g zero n rows r more step sum before bits =
      let all : n ≡ width = omega (arith, sum) in
      record {
        rows = rows;
        reader = r;
        returns = refl;
        reached = subst (λ j. IsDone j 0 rows) all before;
        before = bits;
      }
  each_col-IsOn g (suc left) n rows r more step sum before bits =
      let others : List Bool = columns_bits B comps left (n + 1) in
      let s = step n rows r (others ++ more) (omega arith) (omega (arith, sum)) before (
        subst (λ b. IsBefore m rest b r) (append_assoc (column_bits B n comps 0) others more)
          bits) in
      rw s.returns (
        each_col-IsOn g left (n + 1) s.rows s.reader more
          (λ c rows r more low. step c rows r more (omega (arith, low))) (omega (arith, sum))
          (IsDone-suc n s.rows s.reached) s.before)
