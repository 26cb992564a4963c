-- ===== src/Decompress/SlicedBuffer/Writing.antt =====
-- What `extend` writes, from wherever the buffer stands.
use native.Mathlib.Nat.{div-add-mod'}
use libopenraw.Prelude.{
  ℕ, zero, suc, ◌+◌, ◌*◌, ◌≤◌, ◌<◌, ◌≡◌, ◌≢◌, inl, inr, refl, sym, ap, subst, ◌∙◌, List, [], ◌∷◌,
  length, lt→ltb, arith, get_elem?, set, length-set, get_elem?-set_self, get_elem?-set_ne, Result,
  ok, update_lem,
}
use libopenraw.Decompress.SlicedBuffer.{SlicedBuffer, new, extend_single, extend_sliced}
use libopenraw.Decompress.SlicedBuffer.Place.{
  sum, place_from, place-injective, place_cases, in_range,
}
use libopenraw.Decompress.SlicedBuffer.State.{InSlice, InSlice-buffer, IsAt}
use libopenraw.Decompress.SlicedBuffer.Cursor.{advance-Advanced}
use libopenraw.Decompress.SlicedBuffer.Spot.{pos-eq-place}

-- The values went to their places, the n-th first, and no other element changed.
pub record IsWritten {T : Type 0} (place : ℕ → ℕ) (n : ℕ) (values old new : List T) : Type 0 where
  pub same_length : length new ≡ length old
  pub written : (m : ℕ) → m < length values → get_elem? new (place (n + m)) ≡ get_elem? values m
  pub kept :
      (p : ℕ)
      → ((m : ℕ) → m < length values → p ≢ place (n + m))
      → get_elem? new p ≡ get_elem? old p

module _ {T : Type 0} (place : ℕ → ℕ) where
  pub IsWritten-nil : (n : ℕ) (buffer : List T) → IsWritten place n [] buffer buffer
  IsWritten-nil n buffer = record {
    same_length = refl;
    written = λ m h. absurd (omega arith);
    kept = λ p h. refl;
  }

  pub IsWritten-cons :
      (n : ℕ) (d : T) (values old new : List T)
      → place n < length old
      → ((m : ℕ) → m < length values → place n ≢ place (n + 1 + m))
      → IsWritten place (n + 1) values (set old (place n) d) new
      → IsWritten place n (d ∷ values) old new
  IsWritten-cons n d values old new inside apart rest = record {
    same_length = rest.same_length ∙ length-set old (place n) d;
    written = elim [
      | zero ↦ λ h.
          ap (λ k. get_elem? new (place k)) (omega arith)
          ∙ rest.kept (place n) apart
          ∙ get_elem?-set_self old (place n) d inside
      | suc m ↦ λ h. ap (λ k. get_elem? new (place k)) (omega arith) ∙ rest.written m (omega arith)
    ];
    kept = λ p away.
        rest.kept p (λ m h e. away (suc m) (omega arith) (e ∙ ap place (omega arith)))
        ∙ get_elem?-set_ne old (place n) p d
            (λ e. away 0 (omega arith) (sym e ∙ ap place (omega arith)));
  }

module _ (W H : ℕ) (ws : List ℕ) (fills : sum ws ≡ W) where
  pub place-lt : (n : ℕ) → n < W * H → place_from W H 0 ws n < W * H
  place-lt n h =
      let at = place_cases W H ws 0 n (rw fills h) in
      rw at.place_eq
        (in_range at.row (0 + at.column) W H at.row_fits (omega (arith, at.column_fits, fills)))

  pub apart :
      (n m : ℕ) → n + 1 + m < W * H → place_from W H 0 ws n ≢ place_from W H 0 ws (n + 1 + m)
  apart n m h e =
      let same =
        place-injective W H ws n (n + 1 + m) (omega (arith, fills)) (rw fills (omega arith))
          (rw fills h) e in
      absurd (omega (arith, same))

module _ {T : Type 0} (W H : ℕ) (ws : List ℕ) where
  -- The dimensions and the slices never change, and neither does the buffer's length.
  pub record HasShape (sb : SlicedBuffer T) : Type 0 where
    pub width_eq : sb.width ≡ W
    pub height_eq : sb.height ≡ H
    pub slices_eq : sb.slices ≡ ws
    pub buffer_eq : length sb.buffer ≡ W * H

  -- What a call of `extend` at value `n` leaves: it returned, the cursor moved past the values, and
  -- they are in their places.
  pub record IsExtended (IsCursor : SlicedBuffer T → ℕ → Type 0) (n : ℕ) (values : List T)
      (sb : SlicedBuffer T) (result : Result (SlicedBuffer T)) : Type 0 where
    pub after : SlicedBuffer T
    pub returns : result ≡ ok after
    pub shape : HasShape after
    pub cursor : IsCursor after (n + length values)
    pub writes : IsWritten (place_from W H 0 ws) n values sb.buffer after.buffer

module _ {T : Type 0} (W H : ℕ) (ws : List ℕ) (fills : sum ws ≡ W) where
  pub cursor_of :
      {sb : SlicedBuffer T} (n : ℕ) → HasShape W H ws sb → IsAt sb n → n < W * H → InSlice sb n
  cursor_of n shape (inl c) h = c
  cursor_of {sb} n shape (inr e) h =
      let total : sb.width * sb.height ≡ W * H = rw (shape.width_eq, shape.height_eq) in
      absurd (omega (arith, e, total))

  pub extend_sliced-IsExtended :
      (values : List T) (n : ℕ) (sb : SlicedBuffer T)
      → HasShape W H ws sb
      → IsAt sb n
      → n + length values ≤ W * H
      → IsExtended W H ws IsAt n values sb (extend_sliced values sb)
  unfolding extend_sliced
  extend_sliced-IsExtended [] n sb shape at room = record {
    after = sb;
    returns = refl;
    shape = shape;
    cursor = subst (IsAt sb) (omega arith) at;
    writes = IsWritten-nil (place_from W H 0 ws) n sb.buffer;
  }
  extend_sliced-IsExtended (d ∷ values) n sb shape at room =
      let c = cursor_of n shape at (omega arith) in
      let pos_place : sb.pos ≡ place_from W H 0 ws n =
        pos-eq-place c ∙ rw (shape.width_eq, shape.height_eq, shape.slices_eq) in
      let inside : place_from W H 0 ws n < W * H = place-lt W H ws fills n (omega arith) in
      let fits : sb.pos < length sb.buffer = omega (arith, pos_place, inside, shape.buffer_eq) in
      let buffer' = set sb.buffer sb.pos d in
      let step = advance-Advanced (record sb { buffer = buffer' }) n (InSlice-buffer buffer' c) in
      let next = record step.moved { pos = step.new_pos } in
      let shape' : HasShape W H ws next = record {
        width_eq = step.shape.same_width ∙ shape.width_eq;
        height_eq = step.shape.same_height ∙ shape.height_eq;
        slices_eq = step.shape.same_slices ∙ shape.slices_eq;
        buffer_eq = ap length step.same_buffer ∙ length-set sb.buffer sb.pos d ∙ shape.buffer_eq;
      } in
      let rest = extend_sliced-IsExtended values (n + 1) next shape' step.stands (omega arith) in
      record {
        after = rest.after;
        returns = rw (update_lem sb.buffer sb.pos d fits, step.returns) rest.returns;
        shape = rest.shape;
        cursor = subst (IsAt rest.after) (omega arith) rest.cursor;
        writes =
            IsWritten-cons (place_from W H 0 ws) n d values sb.buffer rest.after.buffer
              (omega (arith, inside, shape.buffer_eq)) (λ m h. apart W H ws fills n m (omega arith))
              (subst (λ b. IsWritten (place_from W H 0 ws) (n + 1) values b rest.after.buffer)
                (step.same_buffer ∙ ap (λ p. set sb.buffer p d) pos_place) rest.writes);
      }

-- With one slice the places are the numbers themselves.
pub place_single : (W H n : ℕ) → n < W * H → place_from W H 0 (W ∷ []) n ≡ n
unfolding place_from
place_single W H n h = rw (lt→ltb n (W * H) h) (omega (arith, div-add-mod' n W))

module _ {T : Type 0} (W H : ℕ) where
  abbrev pub AtPos : SlicedBuffer T → ℕ → Type 0
  AtPos sb n = sb.pos ≡ n

  pub extend_single-IsExtended :
      (values : List T) (n : ℕ) (sb : SlicedBuffer T)
      → HasShape W H (W ∷ []) sb
      → sb.pos ≡ n
      → n + length values ≤ W * H
      → IsExtended W H (W ∷ []) AtPos n values sb (ok (extend_single values sb))
  unfolding extend_single
  extend_single-IsExtended [] n sb shape at room = record {
    after = sb;
    returns = refl;
    shape = shape;
    cursor = omega (arith, at);
    writes = IsWritten-nil (place_from W H 0 (W ∷ [])) n sb.buffer;
  }
  extend_single-IsExtended (d ∷ values) n sb shape at room =
      let here : place_from W H 0 (W ∷ []) n ≡ n = place_single W H n (omega arith) in
      let fits : sb.pos < length sb.buffer = omega (arith, at, shape.buffer_eq) in
      let next = record sb { buffer = set sb.buffer sb.pos d; pos = sb.pos + 1 } in
      let shape' : HasShape W H (W ∷ []) next = record {
        width_eq = shape.width_eq;
        height_eq = shape.height_eq;
        slices_eq = shape.slices_eq;
        buffer_eq = length-set sb.buffer sb.pos d ∙ shape.buffer_eq;
      } in
      let rest =
        extend_single-IsExtended values (n + 1) next shape' (omega (arith, at)) (omega arith) in
      rw (lt→ltb sb.pos (length sb.buffer) fits) (record {
        after = rest.after;
        returns = rest.returns;
        shape = rest.shape;
        cursor = omega (arith, rest.cursor);
        writes =
            IsWritten-cons (place_from W H 0 (W ∷ [])) n d values sb.buffer rest.after.buffer
              (omega (arith, here, shape.buffer_eq))
              (λ m h. apart W H (W ∷ []) (omega arith) n m (omega arith))
              (subst
                (λ p.
                  IsWritten (place_from W H 0 (W ∷ [])) (n + 1) values (set sb.buffer p d)
                    rest.after.buffer)
                (at ∙ sym here) rest.writes);
      })
