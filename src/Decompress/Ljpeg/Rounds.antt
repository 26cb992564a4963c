-- ===== src/Decompress/Ljpeg/Rounds.antt =====
-- The rounds that `process_tables` is given are enough: each one passes bytes of the buffer.
use libopenraw.Prelude.{
  ℕ, zero, suc, ◌+◌, ◌-◌, ◌≤◌, ◌<◌, ◌≡◌, refl, sym, ap, ◌∙◌, subst, Bool, true, false, not, inl,
  inr, ◌==◌, leb, ltb, List, [], ◌∷◌, length, length-drop, drop, get_elem?, some, Result, ok, panic,
  ◌>>=◌, require, reject_if, index, update, After, After-bind, After-any, After-bind_cong,
  After-weaken, jpeg_format, arith,
}
use libopenraw.Decompress.BitReader.{LJpegBitReader, read_u8, read_u16, skip}
use libopenraw.Decompress.Ljpeg.Markers.{
  Action, to_return, read_dht, warn, read_dri, read_app0, skip_segment, action,
}
use libopenraw.Decompress.Ljpeg.Info.{
  Parsed, read_lengths, read_values, read_table, read_tables, get_dht, get_dri, skip_variable,
  run_action, next_marker, process_rounds, process_tables, on_marker, table_or_default,
}
use libopenraw.Decompress.Ljpeg.Search.{next_marker-IsStop}

-- The reader `r'` reads the same buffer as `r`, from a position that is not before.
record IsAhead (r r' : LJpegBitReader) : Type 0 where
  same : r'.buffer ≡ r.buffer
  later : r.pos ≤ r'.pos

stay : (r : LJpegBitReader) → IsAhead r r
stay r = record { same = refl; later = omega arith }

further : (q r s : LJpegBitReader) → IsAhead q r → IsAhead r s → IsAhead q s
further q r s h k = record { same = k.same ∙ h.same; later = omega (arith, h.later, k.later) }

-- A step from `r` after a step from `q` to `r`.
After-step {ℓ} :
    {A : Type ℓ} (q r : LJpegBitReader) (at : A → LJpegBitReader) (m : Result A)
    → IsAhead q r
    → After (λ a. IsAhead r (at a)) m
    → After (λ a. IsAhead q (at a)) m
After-step q r at m h k = After-weaken _ _ m k (λ a. further q r (at a) h)

read_u8-IsAhead : (r : LJpegBitReader) → After (λ p. IsAhead r p.1) (read_u8 r)
unfolding read_u8
read_u8-IsAhead r =
    After-bind _ _ (index r.buffer r.pos) _ (After-any _)
      (λ b t. record { same = refl; later = omega arith })

module _ (be_u16 : List ℕ → Result ℕ) where
  read_u16-IsAhead : (r : LJpegBitReader) → After (λ p. IsAhead r p.1) (read_u16 be_u16 r)
  unfolding read_u16
  read_u16-IsAhead r =
      After-bind _ _ (require (leb r.pos (length r.buffer))) _ (After-any _) (λ u t.
        After-bind _ _ (be_u16 (drop r.pos r.buffer)) _ (After-any _)
          (λ b t'. record { same = refl; later = omega arith }))

  skip_variable-IsAhead : (r : LJpegBitReader) → After (IsAhead r) (skip_variable be_u16 r)
  unfolding skip_variable skip
  skip_variable-IsAhead r = After-bind _ _ (read_u16 be_u16 r) _ (read_u16-IsAhead r) (λ p h.
      After-bind _ _ (reject_if (ltb p.0 2) jpeg_format) _ (After-any _)
        (λ u t. record { same = h.same; later = omega (arith, h.later) }))

  get_dri-IsAhead : (p : Parsed) → After (λ q. IsAhead p.1 q.1) (get_dri be_u16 p)
  unfolding get_dri
  get_dri-IsAhead (dc, r) = After-bind _ _ (read_u16 be_u16 r) _ (read_u16-IsAhead r) (λ p h.
      After-bind _ _ (reject_if (not (p.0 == 4)) jpeg_format) _ (After-any _) (λ u t.
        After-bind _ _ (read_u16 be_u16 p.1) _ (read_u16-IsAhead p.1)
          (λ q k. further r p.1 q.1 h k)))

read_lengths-IsAhead :
    (left i : ℕ) (bits : List ℕ) (count : ℕ) (r : LJpegBitReader)
    → After (λ q. IsAhead r q.2) (read_lengths left i bits count r)
unfolding read_lengths
read_lengths-IsAhead zero i bits count r = stay r
read_lengths-IsAhead (suc left) i bits count r =
    After-bind _ _ (read_u8 r) _ (read_u8-IsAhead r) (λ p h.
      After-bind _ _ (update bits i p.0) _ (After-any _) (λ bits' t.
        After-step r p.1 (λ q. q.2) _ h
          (read_lengths-IsAhead left (i + 1) bits' (count + p.0) p.1)))

read_values-IsAhead :
    (left i : ℕ) (huffval : List ℕ) (r : LJpegBitReader)
    → After (λ q. IsAhead r q.1) (read_values left i huffval r)
unfolding read_values
read_values-IsAhead zero i huffval r = stay r
read_values-IsAhead (suc left) i huffval r =
    After-bind _ _ (read_u8 r) _ (read_u8-IsAhead r) (λ p h.
      After-bind _ _ (update huffval i p.0) _ (After-any _) (λ huffval' t.
        After-step r p.1 (λ q. q.1) _ h (read_values-IsAhead left (i + 1) huffval' p.1)))

read_table-IsAhead : (p : Parsed) → After (λ q. IsAhead p.1 q.1.1) (read_table p)
unfolding read_table
read_table-IsAhead (dc, r) = After-bind _ _ (read_u8 r) _ (read_u8-IsAhead r) (λ p h.
    After-bind _ _ (reject_if (leb 4 p.0) jpeg_format) _ (After-any _) (λ u t.
      After-bind _ _ (index dc.dc_huff_tbl_ptrs p.0) _ (After-any _) (λ slot t.
        After-bind _ _ (update (table_or_default slot).bits 0 0) _ (After-any _) (λ bits t.
          After-bind _ _ (read_lengths 16 1 bits 0 p.1) _ (read_lengths-IsAhead 16 1 bits 0 p.1)
            (λ q k. After-bind _ _ (reject_if (ltb 256 q.1) jpeg_format) _ (After-any _) (λ u t.
              After-bind _ _ (read_values q.1 0 (table_or_default slot).huffval q.2) _
                (read_values-IsAhead q.1 0 _ q.2)
                (λ v l.
                  After-bind _ _ (update dc.dc_huff_tbl_ptrs p.0 _) _ (After-any _)
                    (λ tables t. further r q.2 v.1 (further r p.1 q.2 h k) l))))))))

read_tables-IsAhead :
    (left len : ℕ) (p : Parsed) → After (λ q. IsAhead p.1 q.1) (read_tables left len p)
unfolding read_tables
read_tables-IsAhead zero len p = stay p.1
read_tables-IsAhead (suc left) len p =
    round (len == 0) (λ q. read_tables-IsAhead left (len - (17 + q.0)) q.1)
  where
    round :
        (b : Bool)
        → ((q : ℕ × Parsed)
            → After (λ s. IsAhead q.1.1 s.1) (read_tables left (len - (17 + q.0)) q.1))
        → After
            (λ q. IsAhead p.1 q.1)
            (elim b [
              | true ↦ ok p
              | false ↦ do q ← read_table p; read_tables left (len - (17 + q.0)) q.1
            ])
    round true ih = stay p.1
    round false ih =
        After-bind _ _ (read_table p) _ (read_table-IsAhead p)
          (λ q h. After-step p.1 q.1.1 (λ s. s.1) _ h (ih q))

-- The search for a marker passes two bytes that the buffer has.
pub record IsPast (r r' : LJpegBitReader) : Type 0 where
  inside : r'.pos ≤ length r.buffer
  same : r'.buffer ≡ r.buffer
  later : r.pos + 2 ≤ r'.pos

below_length : (xs : List ℕ) (i : ℕ) (x : ℕ) → get_elem? xs i ≡ some x → i < length xs
below_length [] i x e = cc
below_length (y ∷ xs) zero x e = omega arith
below_length (y ∷ xs) (suc i) x e = omega (arith, below_length xs i x e)

next_marker-IsPast : (r : LJpegBitReader) → After (λ q. IsPast r q.1) (next_marker r)
next_marker-IsPast r = elim (next_marker-IsStop r) [
  | inl (i, c, at, least, e) ↦ subst (After (λ q. IsPast r q.1)) (sym e) (record {
    same = refl;
    later = omega arith;
    inside =
        omega
          (arith, length-drop r.pos r.buffer, below_length (drop r.pos r.buffer) (suc i) c at.code);
  })
  | inr (nowhere, e) ↦ subst (After (λ q. IsPast r q.1)) (sym e) tt
]

module _ (be_u16 : List ℕ → Result ℕ) where
  run_action-IsAhead :
      (a : Action) (p : Parsed) → After (λ q. IsAhead p.1 q.1) (run_action be_u16 a p)
  unfolding run_action get_dht
  run_action-IsAhead to_return p = stay p.1
  run_action-IsAhead warn p = stay p.1
  run_action-IsAhead read_dri p = get_dri-IsAhead be_u16 p
  run_action-IsAhead read_dht (dc, r) =
      After-bind _ _ (read_u16 be_u16 r) _ (read_u16-IsAhead be_u16 r)
        (λ p h. After-step r p.1 (λ q. q.1) _ h (read_tables-IsAhead (p.0 - 2) (p.0 - 2) (dc, p.1)))
  run_action-IsAhead read_app0 (dc, r) =
      After-bind _ _ (skip_variable be_u16 r) _ (skip_variable-IsAhead be_u16 r) (λ r' h. h)
  run_action-IsAhead skip_segment (dc, r) =
      After-bind _ _ (skip_variable be_u16 r) _ (skip_variable-IsAhead be_u16 r) (λ r' h. h)

  on_marker_cong :
      (a : Action) (c : ℕ) (p : Parsed) (f g : Parsed → Result (ℕ × Parsed))
      → ((q : Parsed) → IsAhead p.1 q.1 → f q ≡ g q)
      → on_marker be_u16 a c p f ≡ on_marker be_u16 a c p g
  unfolding on_marker
  on_marker_cong to_return c p f g e = refl
  on_marker_cong read_dht c p f g e =
      After-bind_cong _ (run_action be_u16 read_dht p) (run_action-IsAhead read_dht p) e
  on_marker_cong warn c p f g e =
      After-bind_cong _ (run_action be_u16 warn p) (run_action-IsAhead warn p) e
  on_marker_cong read_dri c p f g e =
      After-bind_cong _ (run_action be_u16 read_dri p) (run_action-IsAhead read_dri p) e
  on_marker_cong read_app0 c p f g e =
      After-bind_cong _ (run_action be_u16 read_app0 p) (run_action-IsAhead read_app0 p) e
  on_marker_cong skip_segment c p f g e =
      After-bind_cong _ (run_action be_u16 skip_segment p) (run_action-IsAhead skip_segment p) e

  -- As many rounds as there are bytes left, and one more, are never used up.
  enough_rounds :
      (late late' : Result (ℕ × Parsed)) (m n : ℕ) (p : Parsed)
      → (length p.1.buffer < m + p.1.pos) × (1 ≤ m)
      → (length p.1.buffer < n + p.1.pos) × (1 ≤ n)
      → process_rounds be_u16 late m p ≡ process_rounds be_u16 late' n p
  unfolding process_rounds
  enough_rounds late late' zero n p h k = absurd (omega (arith, h.1))
  enough_rounds late late' (suc m) zero p h k = absurd (omega (arith, k.1))
  enough_rounds late late' (suc m) (suc n) (dc, r) h k =
      After-bind_cong _ (next_marker r) (next_marker-IsPast r) (λ q past.
        on_marker_cong (action q.0) q.0 (dc, q.1) (process_rounds be_u16 late m)
          (process_rounds be_u16 late' n)
          (λ s ahead.
            let buffers = ap length past.same in
            let buffers' = ap length ahead.same in
            enough_rounds late late' m n s
              (
                omega (arith, h.0, past.later, ahead.later, buffers, buffers'),
                omega (arith, h.0, past.later, past.inside),
              )
              (
                omega (arith, k.0, past.later, ahead.later, buffers, buffers'),
                omega (arith, k.0, past.later, past.inside),
              )))

  -- From every state and whatever `be_u16` does, the loop of `process_tables` ends before its rounds
  -- run out: with any number of rounds above the length of the buffer, and with any other result
  -- `late` for running out of them, its result is the same.
  pub process_tables_rounds :
      (late : Result (ℕ × Parsed)) (rounds : ℕ) (p : Parsed)
      → length p.1.buffer < rounds
      → process_rounds be_u16 late rounds p ≡ process_tables be_u16 p
  unfolding process_tables
  process_tables_rounds late rounds p h =
      enough_rounds late panic rounds (length p.1.buffer + 1) p (omega (arith, h), omega (arith, h))
        (omega arith, omega arith)
