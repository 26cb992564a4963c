-- ===== src/Canon/Crw/Tokens/Blocks.antt =====
-- A block is read back from its tokens.
use libopenraw.Prelude.{
  ℕ, zero, suc, ◌+◌, ◌*◌, ◌^◌, ◌≤◌, ◌<◌, ◌≡◌, refl, sym, ap, ◌∙◌, subst, inr, Bool, some, List, [],
  ◌∷◌, ◌++◌, append_assoc, length, length-append, length-replicate, replicate, take, take-length,
  drop-length, Result, ok, ℤ, pos, arith,
}
use libopenraw.BitSource.{low_bits, value_of}
use libopenraw.BitSource.Fields.{length-low_bits, value_of-low_bits}
use libopenraw.Decompress.Ljpeg.Signs.{sent_bits}
use libopenraw.Nikon.Cfa.Diffs.{sent_bits-lt}
use libopenraw.Canon.Crw.Pump.{Pumped, get_bits}
use libopenraw.Canon.Crw.Pump.Bits.{IsBefore, HasBits, get_bits-HasBits}
use libopenraw.Canon.Crw.Tokens.{Decompress, read_leaf, with_leaf, decoder_at, read_tokens}
use libopenraw.Canon.Crw.Tokens.Trees.{leaf_at}
use libopenraw.Canon.Crw.Tokens.Walk.{read_leaf-leaf_at}
use libopenraw.Canon.Crw.Tokens.Coded.{
  Codes, filled, ended, sent, run, passed, crw_diff-sent_bits, round_lem, done_lem, ended_lem,
  passed_lem, run_lem, sent_lem,
}

-- The differences that are not yet written are 0.
abbrev blank : List ℤ → List ℤ
blank xs = replicate (length xs) (pos 0)

blank-append :
    (n : ℕ) (xs : List ℤ) → blank (replicate n (pos 0) ++ xs) ≡ replicate n (pos 0) ++ blank xs
blank-append zero xs = refl
blank-append (suc n) xs = ap (λ t. pos 0 ∷ t) (blank-append n xs)

length-gap : (n : ℕ) (xs : List ℤ) → length (replicate n (pos 0) ++ xs) ≡ n + length xs
length-gap n xs = length-append (replicate n (pos 0)) xs ∙ omega (arith, length-replicate n (pos 0))

module _ (d : Decompress) (tail bytes : List ℕ) where
  leaf_first :
      (i leaf : ℕ) (p : Pumped) (code bits whole rest : List Bool)
      → leaf_at (decoder_at d i) 0 code ≡ some leaf
      → whole ≡ code ++ bits
      → 32 ≤ length rest
      → IsBefore tail bytes (whole ++ rest) p
      → HasBits tail bytes leaf (bits ++ rest) (read_leaf (decoder_at d i) p)
  leaf_first i leaf p code bits whole rest e w more before =
      read_leaf-leaf_at tail bytes (decoder_at d i) p code (bits ++ rest) leaf e
        (subst (λ t. IsBefore tail bytes t p) (ap (λ t. t ++ rest) w ∙ append_assoc code bits rest)
          before)
        (omega (arith, more, length-append bits rest))

  -- The bits that are sent for a difference.
  field_lem :
      (len v : ℕ) (bits rest : List Bool) (p : Pumped)
      → 1 ≤ len
      → len ≤ 15
      → v < 2 ^ len
      → 32 ≤ length rest
      → IsBefore tail bytes (low_bits len v ++ bits ++ rest) p
      → HasBits tail bytes v (bits ++ rest) (get_bits (pos len) p.0 p.1)
  field_lem len v bits rest p some_bits few fits more before =
      let field = low_bits len v in
      let joined = append_assoc field bits rest in
      let size = length-low_bits len v in
      let count = length-append field (bits ++ rest) in
      let r =
        get_bits-HasBits tail bytes len (field ++ (bits ++ rest)) p some_bits (omega (arith, few))
          (subst (λ t. IsBefore tail bytes t p) joined before)
          (omega (arith, more, count, size, length-append bits rest)) in
      let number : value_of (take len (field ++ (bits ++ rest))) ≡ v =
        ap value_of (take-length field (bits ++ rest) len (sym size))
        ∙ value_of-low_bits len v 0 fits
        ∙ omega arith in
      record {
        after = r.after;
        returns = r.returns ∙ ap (λ n. ok (n, r.after)) number;
        before =
            subst (λ t. IsBefore tail bytes t r.after)
              (drop-length field (bits ++ rest) len (sym size)) r.before;
      }

  -- Behind what was written, the tokens go on.
  go_on :
      (front xs all done : List ℤ) (rest : List Bool) (m m' : Result (List ℤ × Pumped))
      → all ≡ front ++ xs
      → m ≡ m'
      → HasBits tail bytes (done ++ front ++ xs) rest m'
      → HasBits tail bytes (done ++ all) rest m
  go_on front xs all done rest m m' q e h =
      subst (λ t. HasBits tail bytes (done ++ all) rest t) (sym e)
        (subst (λ t. HasBits tail bytes t rest m')
          (append_assoc done front xs ∙ ap (λ t. done ++ t) (sym q)) h)

  -- Where a block's rest is coded, the tokens give it behind the differences that are written.
  pub read_tokens-Codes :
      {i : ℕ} {xs : List ℤ} {bits : List Bool} (left : ℕ) (done : List ℤ) (p : Pumped)
      (rest : List Bool)
      → Codes d i xs bits
      → i ≡ length done
      → i + length xs ≡ 64
      → 64 ≤ i + left
      → 32 ≤ length rest
      → IsBefore tail bytes (bits ++ rest) p
      → HasBits tail bytes (done ++ xs) rest (read_tokens d left i (done ++ blank xs) p)
  read_tokens-Codes {i} left done p rest filled here full enough more before = record {
    after = p;
    returns = done_lem d left i (done ++ []) p (omega (arith, full));
    before = before;
  }
  read_tokens-Codes zero done p rest (ended n far e zs) here full enough more before =
      absurd (omega (arith, full, enough, ap length zs))
  read_tokens-Codes {i} {xs} {bits} (suc left) done p rest (ended n far e zs) here full enough more
        before =
      let leaf = read_leaf-leaf_at tail bytes (decoder_at d i) p bits rest 0 e before more in
      let blanks : blank xs ≡ xs =
        ap blank zs ∙ ap (λ k. replicate k (pos 0)) (length-replicate (suc n) (pos 0)) ∙ sym zs in
      record {
        after = leaf.after;
        returns =
            round_lem d left i 0 (done ++ blank xs) p leaf.after (omega (arith, full, ap length zs))
              leaf.returns
            ∙ ended_lem i (done ++ blank xs) leaf.after (read_tokens d left) far
            ∙ ap (λ t. ok (done ++ t, leaf.after)) blanks;
        before = leaf.before;
      }
  read_tokens-Codes zero done p rest (passed code e c q w) here full enough more before =
      absurd (omega (arith, full, enough, ap length q))
  read_tokens-Codes {i} {xs = all} {bits = whole} (suc left) done p rest
        (passed {xs = xs} {bits = bits} code e c q w) here full enough more before =
      let leaf = leaf_first i 255 p code bits whole rest e w more before in
      let front : List ℤ = pos 0 ∷ [] in
      let buf : done ++ blank all ≡ done ++ front ++ blank xs =
        ap (λ t. done ++ blank t) q ∙ sym (append_assoc done front (blank xs)) in
      go_on front xs all done rest (read_tokens d (suc left) i (done ++ blank all) p)
        (read_tokens d left (i + 1) (done ++ front ++ blank xs) leaf.after) q
        (round_lem d left i 255 (done ++ blank all) p leaf.after (omega (arith, full, ap length q))
            leaf.returns
          ∙ passed_lem i (done ++ blank all) leaf.after (read_tokens d left)
          ∙ ap (λ t. read_tokens d left (i + 1) t leaf.after) buf)
        (read_tokens-Codes left (done ++ front) leaf.after rest c
          (omega (arith, here, length-append done front)) (omega (arith, full, ap length q))
          (omega (arith, enough)) more leaf.before)
  read_tokens-Codes zero done p rest (run {xs = xs} gap code few ze e c q w) here full enough more
        before =
      absurd (omega (arith, full, enough, ap length q, length-gap (gap + 1) xs))
  read_tokens-Codes {i} {xs = all} {bits = whole} (suc left) done p rest
        (run {xs = xs} {bits = bits} gap code few ze e c q w) here full enough more before =
      let leaf = leaf_first i (gap * 16) p code bits whole rest e w more before in
      let front : List ℤ = replicate (gap + 1) (pos 0) in
      let size = ap length q ∙ length-gap (gap + 1) xs in
      let buf : done ++ blank all ≡ done ++ front ++ blank xs =
        ap (λ t. done ++ blank t) q
        ∙ ap (λ t. done ++ t) (blank-append (gap + 1) xs)
        ∙ sym (append_assoc done front (blank xs)) in
      go_on front xs all done rest (read_tokens d (suc left) i (done ++ blank all) p)
        (read_tokens d left (i + gap + 1) (done ++ front ++ blank xs) leaf.after) q
        (round_lem d left i (gap * 16) (done ++ blank all) p leaf.after (omega (arith, full, size))
            leaf.returns
          ∙ run_lem gap i (done ++ blank all) leaf.after (read_tokens d left) few ze
          ∙ ap (λ t. read_tokens d left (i + gap + 1) t leaf.after) buf)
        (read_tokens-Codes left (done ++ front) leaf.after rest c
          (omega (arith, here, length-append done front, length-replicate (gap + 1) (pos 0)))
          (omega (arith, full, size)) (omega (arith, enough)) more leaf.before)
  read_tokens-Codes zero done p rest (sent {xs = xs} gap len x code some_bits few size byte e c q w)
        here full enough more before =
      absurd (omega (arith, full, enough, ap length q, length-gap gap (x ∷ xs)))
  read_tokens-Codes {i} {xs = all} {bits = whole} (suc left) done p rest
        (sent {xs = xs} {bits = bits} gap len x code some_bits few size byte e c q w) here full
        enough more before =
      let field = low_bits len (sent_bits x len) in
      let v = sent_bits x len in
      let leaf = leaf_first i (gap * 16 + len) p code (field ++ bits) whole rest e w more before in
      let number =
        field_lem len v bits rest leaf.after some_bits few (sent_bits-lt x len (inr size)) more
          leaf.before in
      let zs : List ℤ = replicate gap (pos 0) in
      let front : List ℤ = zs ++ x ∷ [] in
      let whole_list : all ≡ front ++ xs = q ∙ sym (append_assoc zs (x ∷ []) xs) in
      let count : length all ≡ gap + suc (length xs) = ap length q ∙ length-gap gap (x ∷ xs) in
      let place : i + gap ≡ length (done ++ zs) =
        omega (arith, here, length-append done zs, length-replicate gap (pos 0)) in
      let room : i + gap < 64 = omega (arith, full, count) in
      let buf : done ++ blank all ≡ done ++ zs ++ (pos 0 ∷ blank xs) =
        ap (λ t. done ++ blank t) q
        ∙ ap (λ t. done ++ t) (blank-append gap (x ∷ xs))
        ∙ sym (append_assoc done zs (pos 0 ∷ blank xs)) in
      let written : done ++ zs ++ (x ∷ blank xs) ≡ done ++ front ++ blank xs =
        sym (append_assoc (done ++ zs) (x ∷ []) (blank xs))
        ∙ ap (λ t. t ++ blank xs) (append_assoc done zs (x ∷ [])) in
      go_on front xs all done rest (read_tokens d (suc left) i (done ++ blank all) p)
        (read_tokens d left (i + gap + 1) (done ++ front ++ blank xs) number.after) whole_list
        (round_lem d left i (gap * 16 + len) (done ++ blank all) p leaf.after (omega (arith, room))
            leaf.returns
          ∙ ap (λ t. with_leaf (gap * 16 + len) i t leaf.after (read_tokens d left)) buf
          ∙ sent_lem gap len i v (done ++ zs) (blank xs) leaf.after number.after
              (read_tokens d left) some_bits few byte place room number.returns
          ∙ ap (λ y. read_tokens d left (i + gap + 1) (done ++ zs ++ (y ∷ blank xs)) number.after)
              (crw_diff-sent_bits x len some_bits size)
          ∙ ap (λ t. read_tokens d left (i + gap + 1) t number.after) written)
        (read_tokens-Codes left (done ++ front) number.after rest c
          (omega (
            arith,
            here,
            length-append done front,
            length-append zs (x ∷ []),
            length-replicate gap (pos 0),
          ))
          (omega (arith, full, count)) (omega (arith, enough)) more number.before)
