-- ===== src/Decompress/SlicedBuffer/Extend.antt =====
-- `extend` lays the stream out as the slices say.
use libopenraw.Prelude.{
  Option, ℕ, ◌+◌, ◌*◌, ◌≤◌, ◌<◌, ◌≡◌, ◌≢◌, inl, refl, sym, ap, subst, ◌∙◌, List, [], ◌∷◌, All,
  length, le→leb, arith, some, none, get_elem?, replicate, length-replicate, ◌>>=◌, Result, ok,
  index, eq→==,
}
use libopenraw.Decompress.SlicedBuffer.{
  SlicedBuffer, slices_or_width, new, extend, extend_single, extend_sliced, into_vec,
}
use libopenraw.Decompress.SlicedBuffer.Place.{
  sum, IsPositive, place_from, source_from, place-source, source-lt,
}
use libopenraw.Decompress.SlicedBuffer.State.{IsAt}
use libopenraw.Decompress.SlicedBuffer.Writing.{
  HasShape, IsExtended, extend_sliced-IsExtended, extend_single-IsExtended,
}

module _ {T : Type 0} (W H : ℕ) (ws : List ℕ) where
  -- The picture after the whole stream went in: each pixel holds the value that the slices give it.
  pub record IsLaidOut (values : List T) (result : Result (SlicedBuffer T)) : Type 0 where
    pub after : SlicedBuffer T
    pub returns : result ≡ ok after
    pub full : length (into_vec after) ≡ W * H
    pub pixel :
        (row column : ℕ)
        → row < H
        → column < W
        → get_elem? (into_vec after) (row * W + column)
          ≡ get_elem? values (source_from W H ws row column)

module _ {T : Type 0} (default : T) (W H w : ℕ) (ws : List ℕ) where
  abbrev fresh : SlicedBuffer T
  fresh = record {
    width = W;
    height = H;
    buffer = replicate (W * H) default;
    slices = w ∷ ws;
    slice = 0;
    slice_offset = 0;
    slice_width = w;
    row_offset = 0;
    pos = 0;
  }

  fresh-HasShape : HasShape W H (w ∷ ws) fresh
  fresh-HasShape = record {
    width_eq = refl;
    height_eq = refl;
    slices_eq = refl;
    buffer_eq = length-replicate (W * H) default;
  }

module _ {T : Type 0} (default : T) (W H w : ℕ) (ws : List ℕ) (fills : w + sum ws ≡ W)
    (positive : All IsPositive (w ∷ ws)) (tall : 0 < H) where
  fresh-IsAt : IsAt (fresh default W H w ws) 0
  fresh-IsAt = inl (record {
    before = [];
    w = w;
    after = ws;
    row = 0;
    column = 0;
    slices_eq = refl;
    slice_eq = refl;
    offset_eq = refl;
    width_eq = refl;
    row_eq = omega arith;
    pos_eq = omega arith;
    row_fits = tall;
    column_fits = positive.0;
    n_eq = omega arith;
    positive = positive.1;
    fills = omega (arith, fills);
  })

  laid_out :
      {Cursor : SlicedBuffer T → ℕ → Type 0} (values : List T) {result : Result (SlicedBuffer T)}
      → length values ≡ W * H
      → IsExtended W H (w ∷ ws) Cursor 0 values (fresh default W H w ws) result
      → IsLaidOut W H (w ∷ ws) values result
  unfolding into_vec
  laid_out values count e = record {
    after = e.after;
    returns = e.returns;
    full = e.shape.buffer_eq;
    pixel = λ row column hr hc.
        let n = source_from W H (w ∷ ws) row column in
        let n_lt : n < W * H =
          rw fills at (source-lt W H (w ∷ ws) row column (omega (arith, fills)) hr) in
        ap (get_elem? e.after.buffer) (omega arith)
        ∙ ap (get_elem? e.after.buffer)
            (sym (place-source W H (w ∷ ws) 0 row column (omega (arith, fills)) hr))
        ∙ ap (λ k. get_elem? e.after.buffer (place_from W H 0 (w ∷ ws) k)) (omega arith)
        ∙ e.writes.written n (omega (arith, count, n_lt));
  }

pub extend_one :
    {T : Type 0} (iter : List T) (sb : SlicedBuffer T)
    → length sb.slices ≡ 1
    → sb.pos ≤ length sb.buffer
    → extend iter sb ≡ ok (extend_single iter sb)
unfolding extend
extend_one iter sb one inside = rw (eq→== _ _ one, le→leb sb.pos (length sb.buffer) inside)

pub extend_many :
    {T : Type 0} (iter : List T) (sb : SlicedBuffer T)
    → length sb.slices ≢ 1
    → extend iter sb ≡ extend_sliced iter sb
unfolding extend
extend_many iter sb many = ground arith

extend-fresh_single :
    {T : Type 0} (default : T) (W H : ℕ) (values : List T)
    → 0 < W
    → 0 < H
    → length values ≡ W * H
    → IsLaidOut W H (W ∷ []) values (extend values (fresh default W H W []))
extend-fresh_single default W H values wide tall count =
    rw (extend_one values (fresh default W H W []) refl (omega arith)) (
      laid_out default W H W [] (omega arith) (wide, tt) tall values count
        (extend_single-IsExtended W H values 0 (fresh default W H W [])
          (fresh-HasShape default W H W []) refl (omega (arith, count))))

extend-fresh :
    {T : Type 0} (default : T) (W H w : ℕ) (ws : List ℕ) (values : List T)
    → w + sum ws ≡ W
    → All IsPositive (w ∷ ws)
    → 0 < H
    → length values ≡ W * H
    → IsLaidOut W H (w ∷ ws) values (extend values (fresh default W H w ws))
extend-fresh default W H w [] values fills positive tall count =
    let whole : w ≡ W = omega (arith, fills) in
    subst (λ V. IsLaidOut V H (w ∷ []) values (extend values (fresh default V H w []))) whole
      (extend-fresh_single default w H values positive.0 tall
        (count ∙ ap (λ (t : ℕ). t * H) (sym whole)))
extend-fresh default W H w (v ∷ ws) values fills positive tall count =
    rw (extend_many values (fresh default W H w (v ∷ ws)) (omega arith)) (
      laid_out default W H w (v ∷ ws) fills positive tall values count (
        extend_sliced-IsExtended W H (w ∷ v ∷ ws) fills values 0 (fresh default W H w (v ∷ ws))
          (fresh-HasShape default W H w (v ∷ ws))
          (fresh-IsAt default W H w (v ∷ ws) fills positive tall) (omega (arith, count))))

-- A new buffer of positive dimensions, whose slices (one of the whole width where none are given)
-- have positive widths that add up to the width of the picture, takes exactly as many values as it
-- has pixels without a panic, and then holds at each row and column the value whose number in the
-- stream the slices give: slice after slice, each row by row.
pub extend-new-IsLaidOut :
    {T : Type 0} (default : T) (W H : ℕ) (slices : Option (List ℕ)) (values : List T)
    → All IsPositive (slices_or_width W slices)
    → sum (slices_or_width W slices) ≡ W
    → 0 < W
    → 0 < H
    → length values ≡ W * H
    → IsLaidOut W H (slices_or_width W slices) values (new default W H slices >>= extend values)
unfolding new slices_or_width index
extend-new-IsLaidOut default W H none values positive fills wide tall count =
    extend-fresh default W H W [] values fills positive tall count
extend-new-IsLaidOut default W H (some []) values positive fills wide tall count =
    absurd (omega arith)
extend-new-IsLaidOut default W H (some (w ∷ ws)) values positive fills wide tall count =
    extend-fresh default W H w ws values fills positive tall count
