-- ===== src/Decompress/Tiled/Written.antt =====
-- One tile in the picture: its rows, as far as the picture reaches.
use libopenraw.Prelude.{
  ℕ, zero, suc, ◌+◌, ◌*◌, ◌≤◌, ◌<◌, ◌≡◌, ◌≢◌, ◌⊎◌, inl, inr, refl, sym, ◌∙◌, List, length,
  length-take, length-drop, take, drop, get_elem?, ok, leb, leb→le, leb→gt, subst, Bool-cases,
  arith,
}
use libopenraw.Decompress.Ljpeg.Image.{Tile}
use libopenraw.Decompress.Tiled.{copy_rows}
use libopenraw.Decompress.Tiled.Rows.{
  IsRowWritten, copy_to-IsRowWritten, subslice_lem, get_elem?-subslice, row_le, three_way,
}

-- A place that is not in the rows from `lo` to `hi` of a tile at `fr` and `fc`, `n` columns wide.
abbrev pub IsBeside : ℕ → ℕ → ℕ → ℕ → ℕ → ℕ → ℕ → Type 0
IsBeside fr fc n lo hi y x = (y < fr + lo) ⊎ ((fr + hi ≤ y) ⊎ ((x < fc) ⊎ (fc + n ≤ x)))

module _ (w h : ℕ) (tile : Tile) (fr fc n : ℕ) where
  pub record IsTileWritten (xs : List ℕ) (lo hi : ℕ) (ys : List ℕ) : Type 0 where
    pub size : length ys ≡ length xs
    pub written :
        (r k : ℕ)
        → lo ≤ r
        → r < hi
        → k < n
        → fr + r < h
        → get_elem? ys ((fr + r) * w + (fc + k)) ≡ get_elem? tile.buf (r * tile.u_width + k)
    pub kept :
        (y x : ℕ)
        → x < w
        → IsBeside fr fc n lo hi y x
        → get_elem? ys (y * w + x) ≡ get_elem? xs (y * w + x)

  IsTileWritten-none :
      (xs : List ℕ) (lo hi : ℕ) → (hi ≤ lo) ⊎ (h ≤ fr + lo) → IsTileWritten xs lo hi xs
  IsTileWritten-none xs lo hi none_left = record {
    size = refl;
    written = λ r k a b c d. absurd (no_row r a b d none_left);
    kept = λ y x inside beside. refl;
  }
    where
      no_row : (r : ℕ) → lo ≤ r → r < hi → fr + r < h → (hi ≤ lo) ⊎ (h ≤ fr + lo) → ⊥
      no_row r a b d (inl e) = omega (arith, a, b, e)
      no_row r a b d (inr e) = omega (arith, a, d, e)

  IsTileWritten-row :
      (xs ys zs values : List ℕ) (lo hi : ℕ)
      → length values ≡ n
      → ((k : ℕ) → k < n → get_elem? values k ≡ get_elem? tile.buf (lo * tile.u_width + k))
      → fc + n ≤ w
      → lo < hi
      → IsRowWritten w xs (fr + lo) fc values ys
      → IsTileWritten ys (lo + 1) hi zs
      → IsTileWritten xs lo hi zs
  IsTileWritten-row xs ys zs values lo hi count source fits some_row row others = record {
    size = others.size ∙ row.size;
    written = written_lem;
    kept = λ y x inside beside.
        others.kept y x inside (beside_others y x beside)
        ∙ row.kept y x inside (beside_row y x beside);
  }
    where
      written_lem :
          (r k : ℕ)
          → lo ≤ r
          → r < hi
          → k < n
          → fr + r < h
          → get_elem? zs ((fr + r) * w + (fc + k)) ≡ get_elem? tile.buf (r * tile.u_width + k)
      written_lem r k a b c d = elim (three_way lo r) [
        | inl later ↦ others.written r k (omega (arith, later)) b c d
        | inr (inl before) ↦ absurd (omega (arith, before, a))
        | inr (inr same) ↦ rw (sym same) (
            others.kept (fr + lo) (fc + k) (omega (arith, c, fits)) (inl (omega arith))
            ∙ row.written k (omega (arith, c, count))
            ∙ source k c)
      ]

      beside_others : (y x : ℕ) → IsBeside fr fc n lo hi y x → IsBeside fr fc n (lo + 1) hi y x
      beside_others y x (inl e) = inl (omega (arith, e))
      beside_others y x (inr e) = inr e

      beside_row :
          (y x : ℕ)
          → IsBeside fr fc n lo hi y x
          → (y ≢ fr + lo) ⊎ ((x < fc) ⊎ (fc + length values ≤ x))
      beside_row y x (inl e) = inl (λ same. omega (arith, e, same))
      beside_row y x (inr (inl e)) = inl (λ same. omega (arith, e, same, some_row))
      beside_row y x (inr (inr (inl e))) = inr (inl e)
      beside_row y x (inr (inr (inr e))) = inr (inr (omega (arith, e, count)))

  pub copy_rows-IsTileWritten :
      (left r : ℕ) (xs : List ℕ)
      → length xs ≡ h * w
      → n ≤ tile.u_width
      → fc + n ≤ w
      → (r + left) * tile.u_width ≤ length tile.buf
      → (zs : List ℕ) × (copy_rows w h tile fr fc n left r xs ≡ ok zs)
        × IsTileWritten xs r (r + left) zs
  unfolding copy_rows
  copy_rows-IsTileWritten zero r xs size narrow fits enough =
      (xs, refl, IsTileWritten-none xs r (r + 0) (inl (omega arith)))
  copy_rows-IsTileWritten (suc left) r xs size narrow fits enough =
      elim (Bool-cases (leb h (fr + r))) [
        | inl e ↦ (
          xs,
          rw (e, copy_rows) refl,
          IsTileWritten-none xs r (r + suc left) (inr (leb→le h (fr + r) e)),
        )
        | inr e ↦
            let here : r * tile.u_width + n ≤ length tile.buf =
              omega (arith, row_le r (r + suc left) tile.u_width (omega arith), enough, narrow) in
            let values : List ℕ = take n (drop (r * tile.u_width) tile.buf) in
            let count : length values ≡ n = omega (
              arith,
              length-take n (drop (r * tile.u_width) tile.buf),
              length-drop (r * tile.u_width) tile.buf,
              here,
            ) in
            let same : (r + 1) + left ≡ r + suc left = omega arith in
            let (ys, copied, row) =
              copy_to-IsRowWritten w h xs (fr + r) fc values size (leb→gt h (fr + r) e)
                (omega (arith, count, fits)) in
            let (zs, others, rest) =
              copy_rows-IsTileWritten left (r + 1) ys (row.size ∙ size) narrow fits
                (rw same enough) in
            (
              zs,
              rw (e, copy_rows, subslice_lem tile.buf (r * tile.u_width) n here, copied, others)
                  refl,
              IsTileWritten-row xs ys zs values r (r + suc left) count
                  (get_elem?-subslice tile.buf (r * tile.u_width) n) fits (omega arith) row
                  (subst (λ t. IsTileWritten ys (r + 1) t zs) same rest),
            )
      ]
