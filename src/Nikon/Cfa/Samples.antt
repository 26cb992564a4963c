-- ===== src/Nikon/Cfa/Samples.antt =====
-- The samples of an encoded picture are read back.
use libopenraw.Prelude.{
  ℕ, zero, suc, ◌+◌, ◌%◌, ◌^◌, ◌≤◌, ◌<◌, ◌≡◌, refl, ap, ◌∙◌, inl, inr, Bool, Bool-cases, some, List,
  [], ◌∷◌, ◌++◌, append_assoc, length, length-set, get_or, set, All, All-set, All-get_or, Result,
  ok, ◌>>=◌, index_lem, update_lem, ltb, ltb→lt, ◌==◌, if◌then◌else◌, pos, ◌+ℤ◌, ◌-ℤ◌, as_u16,
  arith,
}
use libopenraw.BitSource.{BitReaderCrate, IsBitReader}
use libopenraw.BitSource.Fields.{HasRead}
use libopenraw.Nikon.Huffman.{HuffmanNode}
use libopenraw.Nikon.Cfa.{CfaIterator, predicted, next_column, next_diff, next_sample}
use libopenraw.Nikon.Cfa.Codes.{path}
use libopenraw.Nikon.Cfa.Diffs.{IsSent, diff_bits, next_diff-diff_bits}

-- The sample that the next one is predicted by: the last one of the same colour in the row, or, in the
-- first two columns, the first one two rows above.
abbrev pub prediction : CfaIterator → ℕ
prediction it =
    if ltb it.column 2
    then get_or (get_or it.vpred (it.row % 2) []) it.column 0
    else get_or it.hpred (it.column % 2) 0

-- The predictors once a sample is known.
abbrev pub vpred_after : CfaIterator → ℕ → List (List ℕ)
vpred_after it x =
    if ltb it.column 2
    then set it.vpred (it.row % 2) (set (get_or it.vpred (it.row % 2) []) it.column x)
    else it.vpred

abbrev pub after_sample : CfaIterator → ℕ → CfaIterator
after_sample it x =
    next_column (record it { vpred = vpred_after it x; hpred = set it.hpred (it.column % 2) x })

-- Two predictors for two rows, and two for the row.
pub record IsShaped (it : CfaIterator) : Type 0 where
  pub two_rows : length it.vpred ≡ 2
  pub two_each : All (λ line. length line ≡ 2) it.vpred
  pub two_columns : length it.hpred ≡ 2

-- A stream of bits that stands for some samples.
pub data Encodes (table : List HuffmanNode) : CfaIterator → List ℕ → List Bool → Type 0 where
  done : {it : CfaIterator} → Encodes table it [] []
  more :
      {it : CfaIterator} {xs : List ℕ} {bits all : List Bool} (x : ℕ) (code : List Bool) (len : ℕ)
      → x < 2 ^ 16
      → len ≤ 15
      → IsSent (pos x -ℤ pos (prediction it)) len
      → path table 0 code ≡ some len
      → Encodes table (after_sample it x) xs bits
      → all ≡ diff_bits code (pos x -ℤ pos (prediction it)) len ++ bits
      → Encodes table it (x ∷ xs) all

back : (x p : ℕ) → pos p +ℤ (pos x -ℤ pos p) ≡ pos x
unfolding ◌+ℤ◌ ◌-ℤ◌
back x p = ground arith

line_length : (it : CfaIterator) → IsShaped it → length (get_or it.vpred (it.row % 2) []) ≡ 2
line_length it h =
    All-get_or (λ line. length line ≡ 2) it.vpred (it.row % 2) [] h.two_each
      (omega (arith, h.two_rows))

predicted_lem :
    (it : CfaIterator) (x : ℕ)
    → IsShaped it
    → x < 2 ^ 16
    → predicted it (pos x -ℤ pos (prediction it)) ≡ ok (pos x, vpred_after it x)
unfolding predicted as_u16
predicted_lem it x h small = elim (Bool-cases (ltb it.column 2)) [
  | inl e ↦
      let line = line_length it h in
      let row : it.row % 2 < length it.vpred = omega (arith, h.two_rows) in
      let column = ltb→lt it.column 2 e in
      let fits : x % 65536 ≡ x = omega (arith, small) in
      rw
        (
          e,
          index_lem it.vpred (it.row % 2) [] row,
          index_lem (get_or it.vpred (it.row % 2) []) it.column 0 (omega (arith, line, column)),
          back x (get_or (get_or it.vpred (it.row % 2) []) it.column 0),
          fits,
          update_lem (get_or it.vpred (it.row % 2) []) it.column x (omega (arith, line, column)),
          update_lem it.vpred (it.row % 2) (set (get_or it.vpred (it.row % 2) []) it.column x) row,
        )
        refl
  | inr e ↦
      rw
        (
          e,
          index_lem it.hpred (it.column % 2) 0 (omega (arith, h.two_columns)),
          back x (get_or it.hpred (it.column % 2) 0),
        )
        refl
]

next_column-IsShaped : (it : CfaIterator) → IsShaped it → IsShaped (next_column it)
unfolding next_column
next_column-IsShaped it h = elim (Bool-cases (it.column + 1 == it.columns)) [
  | inl e ↦
      rw e (record { two_rows = h.two_rows; two_each = h.two_each; two_columns = h.two_columns })
  | inr e ↦
      rw e (record { two_rows = h.two_rows; two_each = h.two_each; two_columns = h.two_columns })
]

vpred_after-two :
    (it : CfaIterator) (x : ℕ)
    → IsShaped it
    → (length (vpred_after it x) ≡ 2) × All (λ line. length line ≡ 2) (vpred_after it x)
vpred_after-two it x h = elim (Bool-cases (ltb it.column 2)) [
  | inl e ↦
      let line = set (get_or it.vpred (it.row % 2) []) it.column x in
      rw e (
        length-set it.vpred (it.row % 2) line ∙ h.two_rows,
        All-set (λ line. length line ≡ 2) it.vpred (it.row % 2) line h.two_each
            (length-set (get_or it.vpred (it.row % 2) []) it.column x ∙ line_length it h),
      )
  | inr e ↦ rw e (h.two_rows, h.two_each)
]

pub after_sample-IsShaped : (it : CfaIterator) (x : ℕ) → IsShaped it → IsShaped (after_sample it x)
after_sample-IsShaped it x h =
    next_column-IsShaped
      (record it { vpred = vpred_after it x; hpred = set it.hpred (it.column % 2) x })
      (record {
        two_rows = (vpred_after-two it x h).0;
        two_each = (vpred_after-two it x h).1;
        two_columns = length-set it.hpred (it.column % 2) x ∙ h.two_columns;
      })

module _ (c : BitReaderCrate) (laws : IsBitReader c) (table : List HuffmanNode) where
  next_sample_lem :
      (it : CfaIterator) (x : ℕ) (s s' : c.State)
      → IsShaped it
      → x < 2 ^ 16
      → next_diff c table s ≡ ok (pos x -ℤ pos (prediction it), s')
      → next_sample c table it s ≡ ok (x, after_sample it x, s')
  unfolding next_sample as_u16
  next_sample_lem it x s s' h small e =
      let fits : x % 65536 ≡ x = omega (arith, small) in
      rw
        (
          e,
          predicted_lem it x h small,
          fits,
          update_lem it.hpred (it.column % 2) x (omega (arith, h.two_columns)),
        )
        refl

  -- The next sample is there, and the bits of the samples behind it are left.
  pub record HasNext (it : CfaIterator) (x : ℕ) (xs : List ℕ) (rest : List Bool) (s : c.State)
      : Type 0 where
    pub after : c.State
    pub bits : List Bool
    pub returns : next_sample c table it s ≡ ok (x, after_sample it x, after)
    pub encodes : Encodes table (after_sample it x) xs bits
    pub left : laws.bits after ≡ bits ++ rest

  pub next_sample-HasNext :
      (it : CfaIterator) (x : ℕ) (xs : List ℕ) (s : c.State) (all rest : List Bool)
      → IsShaped it
      → Encodes table it (x ∷ xs) all
      → laws.bits s ≡ all ++ rest
      → HasNext it x xs rest s
  next_sample-HasNext it x xs s all rest h
        (more {bits = bits} _ code len small few sent p later whole) e =
      let d = pos x -ℤ pos (prediction it) in
      let first =
        next_diff-diff_bits c laws table s code (bits ++ rest) d len few sent p
          (e ∙ ap (λ t. t ++ rest) whole ∙ append_assoc (diff_bits code d len) bits rest) in
      record {
        after = first.after;
        bits = bits;
        returns = next_sample_lem it x s first.after h small first.returns;
        encodes = later;
        left = first.left;
      }

  -- `n` calls of `CfaIterator::get`, and what they give.
  abbrev pub samples : ℕ → CfaIterator → c.State → Result (List ℕ × c.State)
  samples zero it s = ok ([], s)
  samples (suc n) it s = do
    (x, it', s') ← next_sample c table it s
    (xs, end) ← samples n it' s'
    ok (x ∷ xs, end)

  -- With a reader that does what the crate documents: where the bits that are left start with the
  -- bits of some samples, as many calls of `get` give these samples, and leave what follows.
  pub samples-Encodes :
      (xs : List ℕ) (it : CfaIterator) (s : c.State) (all rest : List Bool)
      → IsShaped it
      → Encodes table it xs all
      → laws.bits s ≡ all ++ rest
      → HasRead c laws xs rest (samples (length xs) it s)
  samples-Encodes [] it s all rest h done e = record { after = s; returns = refl; left = e }
  samples-Encodes (x ∷ xs) it s all rest h code e =
      let first = next_sample-HasNext it x xs s all rest h code e in
      let others =
        samples-Encodes xs (after_sample it x) first.after first.bits rest
          (after_sample-IsShaped it x h) first.encodes first.left in
      rw (first.returns, others.returns)
        (record { after = others.after; returns = refl; left = others.left })
