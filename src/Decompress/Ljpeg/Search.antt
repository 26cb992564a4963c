-- ===== src/Decompress/Ljpeg/Search.antt =====
-- Where `next_marker` stops.
use libopenraw.Prelude.{
  ℕ, zero, suc, ◌+◌, ◌<◌, ◌≡◌, ◌≢◌, ◌⊎◌, inl, inr, refl, sym, ◌∙◌, subst, Bool, true, false, List,
  [], ◌∷◌, ◌==◌, ==_iff, Bool-cases, some, get_elem?, drop, Result, ok, panic, ◌>>=◌, arith,
}
use libopenraw.Decompress.Ljpeg.Info.{scan_marker, next_marker}
use libopenraw.Decompress.BitReader.{LJpegBitReader}

-- A marker in a list of bytes: its code `c` at `i`, behind a byte 0xff.
pub record IsMarker (bytes : List ℕ) (i c : ℕ) : Type 0 where
  pub code : get_elem? bytes (suc i) ≡ some c
  pub prefixed : get_elem? bytes i ≡ some 0xff
  pub not_stuffed : c ≢ 0
  pub not_fill : c ≢ 0xff

-- What the search returns from a list of bytes that starts at `start`.
pub data IsFound (bytes : List ℕ) (start : ℕ) : Result (ℕ × ℕ) → Type 0 where
  found :
      (i c : ℕ)
      → IsMarker bytes i c
      → ((j d : ℕ) → j < i → ¬ IsMarker bytes j d)
      → IsFound bytes start (ok (c, start + i + 2))
  missing : ((j d : ℕ) → ¬ IsMarker bytes j d) → IsFound bytes start panic

-- A byte in front where no marker starts.
prepend :
    (b : ℕ) (bytes : List ℕ) (start : ℕ) (r : Result (ℕ × ℕ))
    → ((d : ℕ) → ¬ IsMarker (b ∷ bytes) 0 d)
    → IsFound bytes (start + 1) r
    → IsFound (b ∷ bytes) start r
prepend b bytes start r none_here (found i c at least) =
    let moved : start + suc i + 2 ≡ start + 1 + i + 2 = omega arith in
    subst (λ n. IsFound (b ∷ bytes) start (ok (c, n))) moved
      (found (suc i) c
        (record {
          code = at.code;
          prefixed = at.prefixed;
          not_stuffed = at.not_stuffed;
          not_fill = at.not_fill;
        })
        (earlier i c least))
  where
    earlier :
        (i c : ℕ)
        → ((j d : ℕ) → j < i → ¬ IsMarker bytes j d)
        → (j d : ℕ) → j < suc i
        → ¬ IsMarker (b ∷ bytes) j d
    earlier i c least zero d lt m = none_here d m
    earlier i c least (suc j) d lt m = least j d (omega arith) (record {
      code = m.code;
      prefixed = m.prefixed;
      not_stuffed = m.not_stuffed;
      not_fill = m.not_fill;
    })
prepend b bytes start r none_here (missing nowhere) = missing (anywhere nowhere)
  where
    anywhere : ((j d : ℕ) → ¬ IsMarker bytes j d) → (j d : ℕ) → ¬ IsMarker (b ∷ bytes) j d
    anywhere nowhere zero d m = none_here d m
    anywhere nowhere (suc j) d m = nowhere j d (record {
      code = m.code;
      prefixed = m.prefixed;
      not_stuffed = m.not_stuffed;
      not_fill = m.not_fill;
    })

-- The bytes, with the 0xff that the search remembers.
abbrev behind : Bool → List ℕ → List ℕ
behind true bytes = 0xff ∷ bytes
behind false bytes = bytes

abbrev before : Bool → ℕ → ℕ
before true start = start + 1
before false start = start

some_injective : {a b : ℕ} → some a ≡ some b → a ≡ b
some_injective e = cc

empty_lem : (after : Bool) (j d : ℕ) → ¬ IsMarker (behind after []) j d
empty_lem true j d m = at_end j m.code
  where
    at_end : (j : ℕ) → get_elem? (0xff ∷ []) (suc j) ≢ some d
    at_end zero e = cc
    at_end (suc j) e = cc
empty_lem false j d m = at_end j m.code
  where
    at_end : (j : ℕ) → get_elem? [] (suc j) ≢ some d
    at_end zero e = cc
    at_end (suc j) e = cc

no_prefix : (b : ℕ) (bytes : List ℕ) → b ≢ 0xff → (d : ℕ) → ¬ IsMarker (b ∷ bytes) 0 d
no_prefix b bytes ne d m = ne (some_injective m.prefixed)

no_code :
    (c : ℕ) (bytes : List ℕ) → (c ≡ 0) ⊎ (c ≡ 0xff) → (d : ℕ) → ¬ IsMarker (0xff ∷ c ∷ bytes) 0 d
no_code c bytes (inl z) d m = m.not_stuffed (sym (some_injective m.code) ∙ z)
no_code c bytes (inr f) d m = m.not_fill (sym (some_injective m.code) ∙ f)

scan-IsFound :
    (after : Bool) (bytes : List ℕ) (start : ℕ)
    → IsFound (behind after bytes) start (scan_marker after bytes (before after start))
unfolding scan_marker
scan-IsFound false [] start = missing (empty_lem false)
scan-IsFound true [] start = missing (empty_lem true)
scan-IsFound false (c ∷ rest) start = elim (Bool-cases (c == 0xff)) [
  | inl e ↦ rw e (
      subst (λ n. IsFound (n ∷ rest) start (scan_marker true rest (start + 1)))
        (sym ((==_iff c 0xff).0 e)) (scan-IsFound true rest start))
  | inr e ↦ rw e (
      prepend c rest start _ (no_prefix c rest (λ h. ground (arith, e)))
        (scan-IsFound false rest (start + 1)))
]
scan-IsFound true (c ∷ rest) start = elim (Bool-cases (c == 0xff)) [
  | inl e ↦
      let fill : c ≡ 0xff = (==_iff c 0xff).0 e in
      rw e (
        prepend 0xff (c ∷ rest) start _ (no_code c rest (inr fill)) (
          subst (λ n. IsFound (n ∷ rest) (start + 1) (scan_marker true rest (start + 1 + 1)))
            (sym fill) (scan-IsFound true rest (start + 1))))
  | inr e ↦ elim (Bool-cases (c == 0)) [
    | inl z ↦
        let stuffed : c ≡ 0 = (==_iff c 0).0 z in
        rw (e, z)
          (prepend 0xff (c ∷ rest) start _ (no_code c rest (inl stuffed)) (
            prepend c rest (start + 1) _ (no_prefix c rest (λ h. ground (arith, e)))
              (scan-IsFound false rest (start + 1 + 1))))
    | inr z ↦
        let there : start + 0 + 2 ≡ start + 1 + 1 = omega arith in
        rw (e, z)
          (subst (λ n. IsFound (0xff ∷ c ∷ rest) start (ok (c, n))) there
            (found 0 c
              (record {
                code = refl;
                prefixed = refl;
                not_stuffed = λ h. ground (arith, z);
                not_fill = λ h. ground (arith, e);
              })
              (λ j d lt m. absurd (omega (arith, lt)))))
  ]
]

-- What `next_marker` returns from a reader `r`.
abbrev pub IsStop : LJpegBitReader → Result (ℕ × LJpegBitReader) → Type 0
IsStop r result =
    ((i c : ℕ) × IsMarker (drop r.pos r.buffer) i c
      × ((j d : ℕ) → j < i → ¬ IsMarker (drop r.pos r.buffer) j d)
      × (result ≡ ok (c, record r { pos = r.pos + i + 2 })))
    ⊎ (((j d : ℕ) → ¬ IsMarker (drop r.pos r.buffer) j d) × (result ≡ panic))

stop_lem :
    (r : LJpegBitReader) (m : Result (ℕ × ℕ))
    → IsFound (drop r.pos r.buffer) r.pos m
    → IsStop r (m >>= λ q. ok (q.0, record r { pos = q.1 }))
stop_lem r m (found i c at least) = inl (i, c, at, least, refl)
stop_lem r m (missing nowhere) = inr (nowhere, refl)

-- From every reader, `next_marker` returns the code of the first marker in the bytes that are left,
-- and stands behind it; where they hold no marker it panics. A marker is a byte other than 0 and
-- 0xff that follows a byte 0xff.
pub next_marker-IsStop : (r : LJpegBitReader) → IsStop r (next_marker r)
unfolding next_marker
next_marker-IsStop r =
    stop_lem r (scan_marker false (drop r.pos r.buffer) r.pos)
      (scan-IsFound false (drop r.pos r.buffer) r.pos)
