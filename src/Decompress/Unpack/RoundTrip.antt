-- ===== src/Decompress/Unpack/RoundTrip.antt =====
-- Unpacking reads back what the layout describes.
use libopenraw.Prelude.{
  ℕ, ◌+◌, ◌*◌, ◌/◌, ◌%◌, ◌<◌, ◌≡◌, ◌⊎◌, inl, inr, false, not, ◌&&◌, ◌==◌, refl, sym, ap, ◌∙◌, List,
  [], ◌∷◌, ◌++◌, All, length, length-append, append_assoc, append-nil, drop, drop-drop, drop-length,
  index-drop, ok, bit_and_mask, bit_or_fields, mod_unique, div_unique, arith,
}
use libopenraw.Tiff.{Compression}
use libopenraw.Decompress.Unpack.{
  unpack_triples, unpack_groups, unpack_12to16, be_pair, le_pair, unpack_be12to16, unpack_le12to16,
  be_pad, le_pad,
}
use libopenraw.Decompress.Unpack.Layout.{
  IsSample, be_bytes, le_bytes, samples, Group, IsGroup, group_samples, pack_pairs, pack_groups,
  length-pack_pairs, length-pack_groups,
}

be_pair-be_bytes :
    (p : ℕ × ℕ) → IsSample p → be_pair (be_bytes p).0 (be_bytes p).1 (be_bytes p).2 ≡ p
unfolding be_pair be_bytes
be_pair-be_bytes (a, b) h = ground (
  arith,
  bit_and_mask 4 (a % 16 * 16 + b / 256),
  bit_or_fields 4 (a / 16) (a % 16),
  bit_or_fields 8 (b / 256) (b % 256),
)

le_pair-le_bytes :
    (p : ℕ × ℕ) → IsSample p → le_pair (le_bytes p).0 (le_bytes p).1 (le_bytes p).2 ≡ p
unfolding le_pair le_bytes
le_pair-le_bytes (a, b) h = ground (
  arith,
  bit_and_mask 4 (b % 16 * 16 + a / 256),
  bit_or_fields 8 (a / 256) (a % 256),
  bit_or_fields 4 (b / 16) (b % 16),
)

padding_accepted :
    (pad n t : ℕ)
    → (pad ≡ 0) ⊎ ((pad ≡ 1) × (t ≡ 0))
    → (not (pad == 0) && not ((n * (15 + pad) + 3 * t) % 16 == 0)) ≡ false
padding_accepted pad n t (inl e) = rw e refl
padding_accepted pad n t (inr (e, f)) = rw (e, f) (ground arith)

rest_accepted : (t : ℕ) → not (3 * t % 3 == 0) ≡ false
rest_accepted t = ground arith

module _ (pair : ℕ → ℕ → ℕ → ℕ × ℕ) (bytes : ℕ × ℕ → ℕ × ℕ × ℕ)
    (inverse : (p : ℕ × ℕ) → IsSample p → pair (bytes p).0 (bytes p).1 (bytes p).2 ≡ p) where
  module _ (input : List ℕ) where
    triples_lem :
        (ps : List (ℕ × ℕ)) (back out_data : List ℕ) (src written : ℕ)
        → All IsSample ps
        → drop src input ≡ pack_pairs bytes ps ++ back
        → unpack_triples pair input
            (length ps)
            (record { src = src; out_data = out_data; written = written })
          ≡ ok (record {
            src = src + 3 * length ps;
            out_data = out_data ++ samples ps;
            written = written + 2 * length ps;
          })
    unfolding unpack_triples
    triples_lem [] back out_data src written h e = ground (arith, append-nil out_data)
    triples_lem (p ∷ ps) back out_data src written h e =
        let e0 = index-drop input src e in
        let e1 = index-drop input (src + 1) e0.1 in
        let src2 : src + 1 + 1 ≡ src + 2 = omega arith in
        let e2 = index-drop input (src + 2) (rw src2 at e1.1) in
        let src3 : src + 2 + 1 ≡ src + 3 = omega arith in
        rw (e0.0, e1.0, e2.0, inverse p h.0)
          (ground (
            arith,
            triples_lem ps back (out_data ++ p.0 ∷ p.1 ∷ []) (src + 3) (written + 2) h.1
                (rw src3 at e2.1),
            append_assoc out_data (p.0 ∷ p.1 ∷ []) (samples ps),
          ))

    -- A whole group takes its five pairs, and the fill behind them is skipped.
    group_lem :
        (pad : ℕ) (g : Group) (back out_data : List ℕ) (src written : ℕ)
        → IsGroup pad g
        → drop src input ≡ pack_pairs bytes g.pairs ++ (g.fill ++ back)
        → (unpack_triples pair input 5
              (record { src = src; out_data = out_data; written = written })
            ≡ ok (record {
              src = src + 15;
              out_data = out_data ++ samples g.pairs;
              written = written + 10;
            }))
          × (drop (src + 15 + pad) input ≡ back)
    group_lem pad g back out_data src written hg e = (
      rw hg.five at (triples_lem g.pairs (g.fill ++ back) out_data src written hg.fits e),
      drop-drop input (src + 15) pad
          ∙ ap (drop pad) (drop-drop input src 15)
          ∙ ap (λ xs. drop pad (drop 15 xs)) e
          ∙ ap (drop pad) (
              drop-length (pack_pairs bytes g.pairs) (g.fill ++ back) 15
                (omega (arith, length-pack_pairs bytes g.pairs, hg.five)))
          ∙ drop-length g.fill back pad (sym hg.filled),
    )

    groups_lem :
        (pad : ℕ) (gs : List Group) (tail : List (ℕ × ℕ)) (out_data : List ℕ) (src written : ℕ)
        → All (IsGroup pad) gs
        → All IsSample tail
        → drop src input ≡ pack_groups bytes gs ++ pack_pairs bytes tail
        → unpack_groups pair input pad
            (3 * length tail)
            (length gs)
            (record { src = src; out_data = out_data; written = written })
          ≡ ok (record {
            src = src + length gs * (15 + pad) + 3 * length tail + pad;
            out_data = out_data ++ (group_samples gs ++ samples tail);
            written = written + (10 * length gs + 2 * length tail);
          })
    unfolding unpack_groups
    groups_lem pad [] tail out_data src written hg ht e =
        let third : 3 * length tail / 3 ≡ length tail = omega arith in
        let last : drop src input ≡ pack_pairs bytes tail ++ [] = e ∙ sym (append-nil _) in
        rw (third, triples_lem tail [] out_data src written ht last) (ground arith)
    groups_lem pad (g ∷ gs) tail out_data src written (hg, hgs) ht e =
        let back = pack_groups bytes gs ++ pack_pairs bytes tail in
        let here =
          e
          ∙ append_assoc (pack_pairs bytes g.pairs) (g.fill ++ pack_groups bytes gs) _
          ∙ ap (λ xs. pack_pairs bytes g.pairs ++ xs)
              (append_assoc g.fill (pack_groups bytes gs) _) in
        let (first, behind) = group_lem pad g back out_data src written hg here in
        rw first (
          ground (
            arith,
            groups_lem pad gs tail (out_data ++ samples g.pairs) (src + 15 + pad) (written + 10) hgs
                ht behind,
            append_assoc out_data (samples g.pairs) (group_samples gs ++ samples tail),
            append_assoc (samples g.pairs) (group_samples gs) (samples tail),
          ))

  unpack-pack :
      (pad : ℕ) (gs : List Group) (tail : List (ℕ × ℕ)) (out_data : List ℕ)
      → All (IsGroup pad) gs
      → All IsSample tail
      → length tail < 5
      → (pad ≡ 0) ⊎ ((pad ≡ 1) × (length tail ≡ 0))
      → unpack_12to16 pair (pack_groups bytes gs ++ pack_pairs bytes tail) pad out_data
        ≡ ok (10 * length gs + 2 * length tail, out_data ++ (group_samples gs ++ samples tail))
  unfolding unpack_12to16
  unpack-pack pad gs tail out_data hg ht short fill =
      let input = pack_groups bytes gs ++ pack_pairs bytes tail in
      let len : length input ≡ length gs * (15 + pad) + 3 * length tail = omega (
        arith,
        length-append (pack_groups bytes gs) (pack_pairs bytes tail),
        length-pack_groups bytes pad gs hg,
        length-pack_pairs bytes tail,
      ) in
      let n_eq : length input / (15 + pad) ≡ length gs =
        ap (λ m. m / (15 + pad)) len ∙ div_unique (length gs) (15 + pad) _ (omega arith) in
      let rest_eq : length input % (15 + pad) ≡ 3 * length tail =
        ap (λ m. m % (15 + pad)) len ∙ mod_unique (length gs) (15 + pad) _ (omega arith) in
      let accepted = padding_accepted pad (length gs) (length tail) fill in
      let accepted' : (not (pad == 0) && not (length input % 16 == 0)) ≡ false = rw len accepted in
      rw (accepted', n_eq, rest_eq, rest_accepted (length tail))
        (rw (groups_lem input pad gs tail out_data 0 0 hg ht refl) (ground arith))

-- Big-endian packing and unpacking: groups of five sample pairs with the fill bytes of
-- `compression` behind each (one for `NikonPack`, none otherwise), then fewer than five pairs (none
-- where there is fill), unpack to the samples in order behind what `out_data` held, and to their
-- number.
pub be_unpack-pack :
    (compression : Compression) (gs : List Group) (tail : List (ℕ × ℕ)) (out_data : List ℕ)
    → All (IsGroup (be_pad compression)) gs
    → All IsSample tail
    → length tail < 5
    → (be_pad compression ≡ 0) ⊎ ((be_pad compression ≡ 1) × (length tail ≡ 0))
    → unpack_be12to16 (pack_groups be_bytes gs ++ pack_pairs be_bytes tail) out_data compression
      ≡ ok (10 * length gs + 2 * length tail, out_data ++ (group_samples gs ++ samples tail))
unfolding unpack_be12to16
be_unpack-pack compression = unpack-pack be_pair be_bytes be_pair-be_bytes (be_pad compression)

-- The same of the little-endian packing, whose fill is one byte for `Olympus` and `PanasonicRaw1`.
pub le_unpack-pack :
    (compression : Compression) (gs : List Group) (tail : List (ℕ × ℕ)) (out_data : List ℕ)
    → All (IsGroup (le_pad compression)) gs
    → All IsSample tail
    → length tail < 5
    → (le_pad compression ≡ 0) ⊎ ((le_pad compression ≡ 1) × (length tail ≡ 0))
    → unpack_le12to16 (pack_groups le_bytes gs ++ pack_pairs le_bytes tail) out_data compression
      ≡ ok (10 * length gs + 2 * length tail, out_data ++ (group_samples gs ++ samples tail))
unfolding unpack_le12to16
le_unpack-pack compression = unpack-pack le_pair le_bytes le_pair-le_bytes (le_pad compression)
