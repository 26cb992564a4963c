-- ===== src/Decompress/Ljpeg/Tables/Sizes.antt =====
-- Figure C.1: the lengths of the codes.
use libopenraw.Prelude.{
  ℕ, zero, suc, ◌+◌, ◌≤◌, ◌≡◌, refl, sym, subst, ap, ap₂, ◌∙◌, List, [], ◌∷◌, ◌++◌, append_assoc,
  length, length-append, length-replicate, length-drop, drop, drop-drop, replicate, ok, index_lem,
  update-append, arith,
}
use libopenraw.Decompress.Ljpeg.Huffman.{write_sizes, write_all_sizes}
use libopenraw.Decompress.Ljpeg.Tables.{count, sizes_from}

write_sizes_lem :
    (n l : ℕ) (xs ys : List ℕ)
    → n ≤ length ys
    → write_sizes n l (xs ++ ys) (length xs)
      ≡ ok (xs ++ (replicate n l ++ drop n ys), length xs + n)
unfolding write_sizes
write_sizes_lem zero l xs ys h = ap (λ p. ok (xs ++ ys, p)) (omega arith)
write_sizes_lem (suc n) l xs [] h = absurd (omega arith)
write_sizes_lem (suc n) l xs (y ∷ ys) h =
    let one : length xs + 1 ≡ length (xs ++ l ∷ []) = sym (length-append xs (l ∷ [])) in
    rw (update-append xs ys y l (length xs) refl, one, sym (append_assoc xs (l ∷ []) ys))
      (write_sizes_lem n l (xs ++ l ∷ []) ys (omega (arith, h))
        ∙ ap₂ (λ hs p. ok (hs, p)) (append_assoc xs (l ∷ []) (replicate n l ++ drop n ys))
            (omega (arith, one)))

-- Every length is written as often as it has codes.
pub write_all_sizes_lem :
    (bits : List ℕ) (left l : ℕ) (xs ys : List ℕ)
    → l + left ≤ length bits
    → length (sizes_from bits left l) ≤ length ys
    → write_all_sizes bits left l (xs ++ ys) (length xs)
      ≡ ok (
        xs ++ (sizes_from bits left l ++ drop (length (sizes_from bits left l)) ys),
        length xs + length (sizes_from bits left l),
      )
unfolding write_all_sizes
write_all_sizes_lem bits zero l xs ys inside room = ap (λ p. ok (xs ++ ys, p)) (omega arith)
write_all_sizes_lem bits (suc left) l xs ys inside room =
    let n = count bits l in
    let here : List ℕ = replicate n l in
    let next : List ℕ = sizes_from bits left (l + 1) in
    let size = length-replicate n l in
    let both : length (here ++ next) ≡ n + length next =
      omega (arith, length-append here next, size) in
    let fits : n ≤ length ys = omega (arith, room, both) in
    let behind = length-append xs here in
    rw
      (
        index_lem bits l 0 (omega (arith, inside)),
        write_sizes_lem n l xs ys fits,
        sym (append_assoc xs here (drop n ys)),
      )
      (subst
        (λ p.
          write_all_sizes bits left (l + 1) ((xs ++ here) ++ drop n ys) p
          ≡ ok (
            xs ++ ((here ++ next) ++ drop (length (here ++ next)) ys),
            length xs + length (here ++ next),
          ))
        (omega (arith, behind, size))
        (write_all_sizes_lem bits left (l + 1) (xs ++ here) (drop n ys) (omega (arith, inside))
            (omega (arith, room, both, length-drop n ys))
          ∙ ap₂ (λ hs p. ok (hs, p))
              (append_assoc xs here (next ++ drop (length next) (drop n ys))
                ∙ ap (λ t. xs ++ t)
                    (sym (append_assoc here next (drop (length next) (drop n ys)))
                      ∙ ap (λ t. (here ++ next) ++ t)
                          (sym (drop-drop ys n (length next)) ∙ ap (λ k. drop k ys) (sym both))))
              (omega (arith, behind, both, size))))
