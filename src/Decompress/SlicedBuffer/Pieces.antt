-- ===== src/Decompress/SlicedBuffer/Pieces.antt =====
-- `extend` may be called in pieces.
use native.Mathlib.Decide.{dec_lt, ℕ_discrete}
use libopenraw.Prelude.{
  ℕ, ◌+◌, ◌≤◌, ◌<◌, ◌≡◌, ◌≢◌, inl, inr, refl, sym, ap, ◌∙◌, List, [], ◌∷◌, ◌++◌, length, ltb,
  Bool-cases, arith, ltb→lt, set, length-set, ◌>>=◌, Result, ok, err, panic, >>=-ok_inv, update,
  bind_assoc, bind_cong, false,
}
use libopenraw.Decompress.SlicedBuffer.{
  SlicedBuffer, advance, extend, extend_single, next_slice, leave_slice, enter_slice, next_row,
  extend_sliced,
}
use libopenraw.Decompress.SlicedBuffer.Extend.{extend_one, extend_many}

extend_sliced-append :
    {T : Type 0} (xs ys : List T) (sb : SlicedBuffer T)
    → extend_sliced (xs ++ ys) sb ≡ (extend_sliced xs sb >>= extend_sliced ys)
unfolding extend_sliced
extend_sliced-append [] ys sb = refl
extend_sliced-append (d ∷ xs) ys sb =
    bind_cong (update sb.buffer sb.pos d) (λ b.
      bind_cong (advance (record sb { buffer = b }))
        (λ moved. extend_sliced-append xs ys (record moved.0 { pos = moved.1 }))
      ∙ sym (bind_assoc (advance (record sb { buffer = b })) _ _))
    ∙ sym (bind_assoc (update sb.buffer sb.pos d) _ _)

extend_single_full :
    {T : Type 0} (ys : List T) (sb : SlicedBuffer T)
    → ltb sb.pos (length sb.buffer) ≡ false
    → extend_single ys sb ≡ sb
unfolding extend_single
extend_single_full [] sb full = refl
extend_single_full (d ∷ ys) sb full = rw full

extend_single-append :
    {T : Type 0} (xs ys : List T) (sb : SlicedBuffer T)
    → extend_single (xs ++ ys) sb ≡ extend_single ys (extend_single xs sb)
unfolding extend_single
extend_single-append [] ys sb = refl
extend_single-append (d ∷ xs) ys sb = elim (Bool-cases (ltb sb.pos (length sb.buffer))) [
  | inl fits ↦
      rw fits (
        extend_single-append xs ys
          (record sb { buffer = set sb.buffer sb.pos d; pos = sb.pos + 1 }))
  | inr full ↦ rw full (sym (extend_single_full ys sb full))
]

-- What a call leaves alone decides which of the two loops the next call takes.
record Keeps {T : Type 0} (after before : SlicedBuffer T) : Type 0 where
  slices : after.slices ≡ before.slices
  inside : before.pos ≤ length before.buffer → after.pos ≤ length after.buffer

extend_single-Keeps :
    {T : Type 0} (xs : List T) (sb : SlicedBuffer T) → Keeps (extend_single xs sb) sb
unfolding extend_single
extend_single-Keeps [] sb = record { slices = refl; inside = λ h. h }
extend_single-Keeps (d ∷ xs) sb = elim (Bool-cases (ltb sb.pos (length sb.buffer))) [
  | inl fits ↦
      let next = record sb { buffer = set sb.buffer sb.pos d; pos = sb.pos + 1 } in
      let rest = extend_single-Keeps xs next in
      rw fits (record {
        slices = rest.slices;
        inside = λ h. rest.inside (omega (arith, length-set sb.buffer sb.pos d, ltb→lt _ _ fits));
      })
  | inr full ↦ rw full (record { slices = refl; inside = λ h. h })
]

slices-next_slice : {T : Type 0} (sb : SlicedBuffer T) → (next_slice sb).slices ≡ sb.slices
unfolding next_slice leave_slice enter_slice
slices-next_slice sb = ground arith

slices-advance :
    {T : Type 0} (sb moved : SlicedBuffer T) (p : ℕ)
    → advance sb ≡ ok (moved, p)
    → moved.slices ≡ sb.slices
unfolding advance next_row
slices-advance sb moved p e = ground (arith, slices-next_slice sb)

slices-extend_sliced :
    {T : Type 0} (xs : List T) (sb after : SlicedBuffer T)
    → extend_sliced xs sb ≡ ok after
    → after.slices ≡ sb.slices
unfolding extend_sliced
slices-extend_sliced [] sb after e = cc
slices-extend_sliced (d ∷ xs) sb after e =
    let (b, eb, e1) = >>=-ok_inv (update sb.buffer sb.pos d) _ e in
    let (m, em, e2) = >>=-ok_inv (advance (record sb { buffer = b })) _ e1 in
    slices-extend_sliced xs (record m.0 { pos = m.1 }) after e2
    ∙ slices-advance (record sb { buffer = b }) m.0 m.1 em

extend_past :
    {T : Type 0} (iter : List T) (sb : SlicedBuffer T)
    → length sb.slices ≡ 1
    → length sb.buffer < sb.pos
    → extend iter sb ≡ panic
unfolding extend
extend_past iter sb one past = ground arith

append_one :
    {T : Type 0} (xs ys : List T) (sb : SlicedBuffer T)
    → length sb.slices ≡ 1
    → extend (xs ++ ys) sb ≡ (extend xs sb >>= extend ys)
append_one xs ys sb one = elim (dec_lt (length sb.buffer) sb.pos) [
  | yes past ↦ rw (extend_past (xs ++ ys) sb one past, extend_past xs sb one past)
  | no inside ↦
      let fits : sb.pos ≤ length sb.buffer = omega arith in
      let keeps = extend_single-Keeps xs sb in
      extend_one (xs ++ ys) sb one fits
      ∙ ap ok (extend_single-append xs ys sb)
      ∙ sym (extend_one ys (extend_single xs sb) (ap length keeps.slices ∙ one) (keeps.inside fits))
      ∙ ap (λ m. m >>= extend ys) (sym (extend_one xs sb one fits))
]

append_many :
    {T : Type 0} (xs ys : List T) (sb : SlicedBuffer T) (r : Result (SlicedBuffer T))
    → extend_sliced xs sb ≡ r
    → length sb.slices ≢ 1
    → (r >>= extend_sliced ys) ≡ (r >>= extend ys)
append_many xs ys sb (ok after) e many = sym (
    extend_many ys after (λ one. many (sym (ap length (slices-extend_sliced xs sb after e)) ∙ one)))
append_many xs ys sb (err x) e many = refl
append_many xs ys sb panic e many = refl

-- The stream may come in pieces: two calls of `extend` do what one call on both pieces does, panics
-- included.
pub extend-append :
    {T : Type 0} (xs ys : List T) (sb : SlicedBuffer T)
    → extend (xs ++ ys) sb ≡ (extend xs sb >>= extend ys)
extend-append xs ys sb = elim (ℕ_discrete (length sb.slices) 1) [
  | yes one ↦ append_one xs ys sb one
  | no many ↦
      extend_many (xs ++ ys) sb many
      ∙ extend_sliced-append xs ys sb
      ∙ append_many xs ys sb (extend_sliced xs sb) refl many
      ∙ ap (λ m. m >>= extend ys) (sym (extend_many xs sb many))
]
