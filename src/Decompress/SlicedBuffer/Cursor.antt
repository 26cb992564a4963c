-- ===== src/Decompress/SlicedBuffer/Cursor.antt =====
-- `advance` follows the layout of `Place`.
use native.Mathlib.Decide.{dec_lt}
use libopenraw.Prelude.{
  ℕ, ◌+◌, ◌*◌, ◌/◌, ◌<◌, ◌≡◌, inl, inr, refl, sym, ap, ◌∙◌, List, [], ◌∷◌, ◌++◌, length-append,
  div_unique, arith, some, get_elem?, get_elem?-append_right, Result, ok, append_assoc,
}
use libopenraw.Decompress.SlicedBuffer.{
  SlicedBuffer, leave_slice, enter_slice, next_slice, next_row, advance,
}
use libopenraw.Decompress.SlicedBuffer.Place.{sum, sum-append}
use libopenraw.Decompress.SlicedBuffer.State.{InSlice, IsAt, SameShape}

module _ {T : Type 0} (sb : SlicedBuffer T) (n : ℕ) (c : InSlice sb n) where
  abbrev entered : SlicedBuffer T
  entered = record sb { slice_offset = sb.slice_offset + c.w; slice = sb.slice + 1 }

  leave_slice_lem : leave_slice sb ≡ entered
  unfolding leave_slice
  leave_slice_lem = rw (found, leave_slice)
    where
      found : get_elem? sb.slices sb.slice ≡ some c.w
      found =
          ap (λ ws. get_elem? ws sb.slice) c.slices_eq
          ∙ get_elem?-append_right c.before (c.w ∷ c.after) sb.slice 0 (omega (arith, c.slice_eq))

  following : get_elem? sb.slices (sb.slice + 1) ≡ get_elem? c.after 0
  following =
      ap (λ ws. get_elem? ws (sb.slice + 1)) c.slices_eq
      ∙ get_elem?-append_right c.before (c.w ∷ c.after) (sb.slice + 1) 1 (omega (arith, c.slice_eq))

  next_slice_last : c.after ≡ [] → next_slice sb ≡ record entered { slice_width = 0 }
  unfolding next_slice enter_slice
  next_slice_last e = ap enter_slice leave_slice_lem ∙ rw (following, e, enter_slice)

  next_slice_more :
      (w' : ℕ) (rest : List ℕ)
      → c.after ≡ w' ∷ rest
      → next_slice sb ≡ record entered { slice_width = w' }
  unfolding next_slice enter_slice
  next_slice_more w' rest e = ap enter_slice leave_slice_lem ∙ rw (following, e, enter_slice)

  -- A move of `advance`: the shape and the data stay, and the next value is `n + 1`.
  pub record Advanced (r : Result (SlicedBuffer T × ℕ)) : Type 0 where
    pub moved : SlicedBuffer T
    pub new_pos : ℕ
    pub returns : r ≡ ok (moved, new_pos)
    pub shape : SameShape moved sb
    pub same_buffer : moved.buffer ≡ sb.buffer
    pub stands : IsAt (record moved { pos = new_pos }) (n + 1)

  width_pos : 0 < sb.width
  width_pos = omega (arith, c.fills, c.column_fits)

  row_of_pos : sb.pos / sb.width ≡ c.row
  row_of_pos =
      ap (λ p. p / sb.width) c.pos_eq
      ∙ div_unique c.row sb.width (sum c.before + c.column) (omega (arith, c.fills, c.column_fits))

  within_row : c.column + 1 < c.w → Advanced (advance sb)
  unfolding advance
  within_row h = record {
    moved = sb;
    new_pos = sb.pos + 1;
    returns = ground (arith, c.row_eq, c.pos_eq, c.width_eq);
    shape = record { same_width = refl; same_height = refl; same_slices = refl };
    same_buffer = refl;
    stands = inl (record {
      before = c.before;
      w = c.w;
      after = c.after;
      row = c.row;
      column = c.column + 1;
      slices_eq = c.slices_eq;
      slice_eq = c.slice_eq;
      offset_eq = c.offset_eq;
      width_eq = c.width_eq;
      row_eq = c.row_eq;
      pos_eq = omega (arith, c.pos_eq);
      row_fits = c.row_fits;
      column_fits = h;
      n_eq = omega (arith, c.n_eq);
      positive = c.positive;
      fills = c.fills;
    });
  }

  row_done : c.column + 1 ≡ c.w → advance sb ≡ next_row sb
  unfolding advance
  row_done h = ground (arith, c.row_eq, c.pos_eq, c.width_eq)

  next_row_within : c.column + 1 ≡ c.w → c.row + 1 < sb.height → Advanced (next_row sb)
  unfolding next_row
  next_row_within h k = record {
    moved = record sb { row_offset = (c.row + 1) * sb.width + sb.slice_offset };
    new_pos = (c.row + 1) * sb.width + sb.slice_offset;
    returns = rw row_of_pos (ground (arith, width_pos));
    shape = record { same_width = refl; same_height = refl; same_slices = refl };
    same_buffer = refl;
    stands = inl (record {
      before = c.before;
      w = c.w;
      after = c.after;
      row = c.row + 1;
      column = 0;
      slices_eq = c.slices_eq;
      slice_eq = c.slice_eq;
      offset_eq = c.offset_eq;
      width_eq = c.width_eq;
      row_eq = omega (arith, c.offset_eq);
      pos_eq = omega (arith, c.offset_eq);
      row_fits = k;
      column_fits = omega (arith, c.column_fits);
      n_eq = omega (arith, c.n_eq, ap (λ (t : ℕ). c.row * t) h);
      positive = c.positive;
      fills = c.fills;
    });
  }

  slice_done : c.column + 1 ≡ c.w → c.row + 1 ≡ sb.height → n + 1 ≡ (sum c.before + c.w) * sb.height
  slice_done h k = omega (arith, c.n_eq, ap (λ (t : ℕ). c.w * t) k)

  next_row_after :
      (w' : ℕ) (rest : List ℕ)
      → c.after ≡ w' ∷ rest
      → c.column + 1 ≡ c.w
      → c.row + 1 ≡ sb.height
      → Advanced (next_row sb)
  unfolding next_row
  next_row_after w' rest e h k = record {
    moved = record entered { slice_width = w'; row_offset = 0 * sb.width + entered.slice_offset };
    new_pos = 0 * sb.width + entered.slice_offset;
    returns = rw (row_of_pos, next_slice_more w' rest e) (ground (arith, width_pos));
    shape = record { same_width = refl; same_height = refl; same_slices = refl };
    same_buffer = refl;
    stands = inl (record {
      before = c.before ++ c.w ∷ [];
      w = w';
      after = rest;
      row = 0;
      column = 0;
      slices_eq =
          c.slices_eq
          ∙ ap (λ ws. c.before ++ (c.w ∷ ws)) e
          ∙ sym (append_assoc c.before (c.w ∷ []) (w' ∷ rest));
      slice_eq = omega (arith, c.slice_eq, length-append c.before (c.w ∷ []));
      offset_eq = omega (arith, c.offset_eq, sum-append c.before (c.w ∷ []));
      width_eq = refl;
      row_eq = omega (arith, c.offset_eq, sum-append c.before (c.w ∷ []));
      pos_eq = omega (arith, c.offset_eq, sum-append c.before (c.w ∷ []));
      row_fits = omega (arith, k);
      column_fits = (rw e at c.positive).0;
      n_eq =
          slice_done h k
          ∙ omega (arith, ap (λ (t : ℕ). t * sb.height) (sum-append c.before (c.w ∷ [])));
      positive = (rw e at c.positive).1;
      fills = omega (arith, c.fills, sum-append c.before (c.w ∷ []), ap sum e);
    });
  }

  next_row_last : c.after ≡ [] → c.column + 1 ≡ c.w → c.row + 1 ≡ sb.height → Advanced (next_row sb)
  unfolding next_row
  next_row_last e h k = record {
    moved = record entered { slice_width = 0; row_offset = 0 * sb.width + entered.slice_offset };
    new_pos = 0 * sb.width + entered.slice_offset;
    returns = rw (row_of_pos, next_slice_last e) (ground (arith, width_pos));
    shape = record { same_width = refl; same_height = refl; same_slices = refl };
    same_buffer = refl;
    stands =
        inr (slice_done h k ∙ ap (λ (t : ℕ). t * sb.height) (omega (arith, c.fills, ap sum e)));
  }

  -- From a cursor `advance` always returns, and the cursor moves on by one value.
  pub advance-Advanced : Advanced (advance sb)
  advance-Advanced = elim (dec_lt (c.column + 1) c.w) [
    | yes inside ↦ within_row inside
    | no out ↦
        let h : c.column + 1 ≡ c.w = omega (arith, c.column_fits) in
        rw (row_done h) (elim (dec_lt (c.row + 1) sb.height) [
          | yes more ↦ next_row_within h more
          | no last ↦ at_end h (omega (arith, c.row_fits)) c.after refl
        ])
  ]
    where
      at_end :
          c.column + 1 ≡ c.w
          → c.row + 1 ≡ sb.height
          → (ws : List ℕ) → c.after ≡ ws
          → Advanced (next_row sb)
      at_end h k [] e = next_row_last e h k
      at_end h k (w' ∷ rest) e = next_row_after w' rest e h k
