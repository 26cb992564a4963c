-- ===== src/Panasonic/Raw1/Pixels.antt =====
-- A chunk of 16 bytes always decodes: the fields that its pixels ask for fit its 128 bits exactly.
use libopenraw.Prelude.{
  ℕ, zero, suc, ◌+◌, ◌-◌, ◌*◌, ◌^◌, ◌≤◌, ◌<◌, ◌≡◌, inl, inr, refl, subst, subst₂, ◌∙◌, ◌>>=◌, false,
  List, [], ◌∷◌, Bool-cases, All, All-get_or, length, get_or, set, length-set, Result, ok,
  index_lem, update_lem, shr, arith,
}
use libopenraw.Panasonic.Raw1.{
  Chunk, is_nonzero, set_nonzero, load_initial_px, pixel_value, store_px, initial_px, decode_px,
  decode_groups, start, decode_chunk,
}
use libopenraw.Panasonic.Raw1.Bits.{IsByte}
use libopenraw.Panasonic.Raw1.Fields.{
  IsFine, next_lem, All-weaken, All-set, IsShift, shift_lem, decode_next_px_lem, IsPx, extras-le,
  load_initial_px_lem,
}

pixel_value_lem :
    (px shifts shift prev : ℕ) (c : Chunk)
    → px < 14
    → shifts ≤ 8
    → IsShift shift
    → prev ≤ 4095 + 508 * px
    → IsFine px shifts c
    → IsPx px shifts (pixel_value c px shift prev)
unfolding pixel_value
pixel_value_lem px shifts shift prev c hi hs sh hp h =
    elim (Bool-cases (is_nonzero c.color_nonzero px)) [
      | inl lit ↦
          let (j, e, j_lt) =
            next_lem c.cursor 8 h.sixteen h.bytes (inr (inr refl))
              (omega (arith, h.used, extras-le c.color_nonzero)) in
          let p = decode_next_px_lem j shift prev j_lt sh (omega arith) in
          rw (lit, e, p.returns)
            (record {
              value = p.value;
              chunk = record c { cursor = record c.cursor { pos = c.cursor.pos + 8 } };
              returns = refl;
              range = omega (arith, p.range);
              fine = record {
                sixteen = h.sixteen;
                bytes = h.bytes;
                used = omega (arith, h.used);
                fourteen = h.fourteen;
                bounded = All-weaken _ _ c.out (omega arith) h.bounded;
              };
            })
      | inr dark ↦ rw dark (load_initial_px_lem px shifts c hi hs h dark)
    ]

-- The state after a step that returns.
record Steps (px shifts : ℕ) (r : Result Chunk) : Type 0 where
  chunk : Chunk
  returns : r ≡ ok chunk
  fine : IsFine px shifts chunk

-- A decoded pixel is stored.
stored :
    (px shifts : ℕ) (r : Result (ℕ × Chunk))
    → px < 14
    → IsPx px shifts r
    → Steps (suc px) shifts (r >>= store_px px)
unfolding store_px
stored px shifts r hi p =
    rw (p.returns, update_lem p.chunk.out px p.value (omega (arith, p.fine.fourteen)))
      (record {
        chunk = record p.chunk { out = set p.chunk.out px p.value };
        returns = refl;
        fine = record {
          sixteen = p.fine.sixteen;
          bytes = p.fine.bytes;
          used = p.fine.used;
          fourteen = length-set p.chunk.out px p.value ∙ p.fine.fourteen;
          bounded = All-set _ px p.value p.chunk.out p.range p.fine.bounded;
        };
      })

decode_px_lem :
    (px following shifts shift : ℕ) (c : Chunk)
    → suc px ≡ following
    → 2 ≤ px
    → px < 14
    → shifts ≤ 8
    → IsShift shift
    → IsFine px shifts c
    → Steps following shifts (decode_px c px shift)
unfolding decode_px
decode_px_lem px following shifts shift c e lo hi hs sh h =
    let inside : px - 2 < length c.out = omega (arith, h.fourteen) in
    let prev = get_or c.out (px - 2) 0 in
    let bound = All-get_or (λ v. v ≤ 4095 + 508 * px) c.out (px - 2) 0 h.bounded inside in
    rw (index_lem c.out (px - 2) 0 inside) (
      subst (λ n. Steps n shifts (pixel_value c px shift prev >>= store_px px)) e
        (stored px shifts (pixel_value c px shift prev) hi
          (pixel_value_lem px shifts shift prev c hi hs sh bound h)))

groups_lem :
    (groups px shifts : ℕ) (c : Chunk)
    → 2 ≤ px
    → px + 3 * groups ≡ 14
    → shifts + 2 * groups ≡ 8
    → IsFine px shifts c
    → Steps 14 8 (decode_groups groups px c)
unfolding decode_groups
groups_lem zero px shifts c lo e f h = record {
  chunk = c;
  returns = refl;
  fine = subst₂ (λ p s. IsFine p s c) (omega (arith, e)) (omega (arith, f)) h;
}
groups_lem (suc groups) px shifts c lo e f h =
    let (v, read, v_lt) =
      next_lem c.cursor 2 h.sixteen h.bytes (inl refl)
        (omega (arith, h.used, extras-le c.color_nonzero)) in
    let c0 = record c { cursor = record c.cursor { pos = c.cursor.pos + 2 } } in
    let h0 : IsFine px (shifts + 2) c0 = record {
      sixteen = h.sixteen;
      bytes = h.bytes;
      used = omega (arith, h.used);
      fourteen = h.fourteen;
      bounded = h.bounded;
    } in
    let s = shr 4 (3 - v) in
    let sh = shift_lem v v_lt in
    let s1 =
      decode_px_lem px (px + 1) (shifts + 2) s c0 (omega arith) lo (omega arith) (omega arith) sh
        h0 in
    let s2 =
      decode_px_lem (px + 1) (px + 2) (shifts + 2) s s1.chunk (omega arith) (omega arith)
        (omega arith) (omega arith) sh s1.fine in
    let s3 =
      decode_px_lem (px + 2) (px + 3) (shifts + 2) s s2.chunk (omega arith) (omega arith)
        (omega arith) (omega arith) sh s2.fine in
    rw (read, s1.returns, s2.returns, s3.returns)
      (groups_lem groups (px + 3) (shifts + 2) s3.chunk (omega arith) (omega arith) (omega arith)
        s3.fine)

-- What `decode_chunk` promises: 14 pixels, the largest below 2 ^ 14.
pub record IsDecoded (r : Result (List ℕ)) : Type 0 where
  pub pixels : List ℕ
  pub returns : r ≡ ok pixels
  pub fourteen : length pixels ≡ 14
  pub bounded : All (λ v. v < 2 ^ 14) pixels

All-map_le : (xs : List ℕ) → All (λ v. v ≤ 4095 + 508 * 14) xs → All (λ v. v < 2 ^ 14) xs
All-map_le [] h = tt
All-map_le (x ∷ xs) h = (omega (arith, h.0), All-map_le xs h.1)

start-IsFine : (bits : List ℕ) → length bits ≡ 16 → All IsByte bits → IsFine 0 0 (start bits)
start-IsFine bits len bytes = record {
  sixteen = len;
  bytes = bytes;
  used = omega arith;
  fourteen = refl;
  bounded = omega arith;
}

initial_lem :
    (px : ℕ) (c : Chunk)
    → px < 14
    → IsFine px 0 c
    → is_nonzero c.color_nonzero px ≡ false
    → Steps (suc px) 0 (initial_px c px)
unfolding initial_px
initial_lem px c hi h dark =
    stored px 0 (load_initial_px c px) hi (load_initial_px_lem px 0 c hi (omega arith) h dark)

-- The second initial pixel has the other colour, which the first one did not mark.
odd_dark :
    (bits : List ℕ) (c : Chunk)
    → initial_px (start bits) 0 ≡ ok c
    → is_nonzero c.color_nonzero 1 ≡ false
unfolding initial_px load_initial_px store_px is_nonzero set_nonzero
odd_dark bits c e = ground arith

-- Every group of 16 bytes decodes without a panic, whatever its bits: the 14 pixels and the 4 shifts
-- never ask for more than its 128 bits, and the sums stay in 16 bits. There are 14 pixels, each
-- below 2 ^ 14.
pub decode_chunk-IsDecoded :
    (bits : List ℕ) → length bits ≡ 16 → All IsByte bits → IsDecoded (decode_chunk bits)
unfolding decode_chunk
decode_chunk-IsDecoded bits len bytes =
    let s1 =
      initial_lem 0 (start bits) (omega arith) (start-IsFine bits len bytes)
        (unfold is_nonzero in refl) in
    let s2 = initial_lem 1 s1.chunk (omega arith) s1.fine (odd_dark bits s1.chunk s1.returns) in
    let s3 = groups_lem 4 2 0 s2.chunk (omega arith) refl refl s2.fine in
    rw (s1.returns, s2.returns, s3.returns)
      (record {
        pixels = s3.chunk.out;
        returns = refl;
        fourteen = s3.fine.fourteen;
        bounded = All-map_le s3.chunk.out s3.fine.bounded;
      })
