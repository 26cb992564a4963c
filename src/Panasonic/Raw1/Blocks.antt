-- ===== src/Panasonic/Raw1/Blocks.antt =====
-- How the chunks lie in the blocks, and what the whole decompression returns.
use native.Mathlib.Decide.{ℕ_discrete}
use libopenraw.Prelude.{
  ℕ, zero, suc, ◌+◌, ◌-◌, ◌*◌, ◌/◌, ◌%◌, ◌^◌, ◌≤◌, ◌<◌, ◌≡◌, ◌≢◌, inl, inr, refl, sym, ap, ◌∙◌,
  ◌==◌, ltb, ne→==, List, [], ◌++◌, Bool-cases, if◌then◌else◌, ◌>>=◌, All-take, All-drop,
  All-append, get_elem?, get_elem?-take, get_elem?-drop_add, All, length, length-take, length-drop,
  length-append, take, drop, take-length, drop-length, drop-drop, get_elem?-append_left,
  get_elem?-append_right, Result, ok, err, unexpected_eof, le→leb, arith,
}
use libopenraw.Panasonic.Raw1.{
  decode_chunk, chunk_to_offset, slice_of, block_get_chunk, decode_chunks, panasonic_raw1,
}
use libopenraw.Panasonic.Raw1.Bits.{IsByte}
use libopenraw.Panasonic.Raw1.Pixels.{decode_chunk-IsDecoded}

-- `r` returns `len` bytes, the k-th of them from place `at k` of `xs`.
pub record IsGathered (xs : List ℕ) (at : ℕ → ℕ) (len : ℕ) (r : Result (List ℕ)) : Type 0 where
  pub bytes : List ℕ
  pub returns : r ≡ ok bytes
  pub count : length bytes ≡ len
  pub are_bytes : All IsByte bytes
  pub places : (k : ℕ) → k < len → get_elem? bytes k ≡ get_elem? xs (at k)

slice_of_lem :
    (xs : List ℕ) (from len : ℕ)
    → All IsByte xs
    → from + len ≤ length xs
    → IsGathered xs (λ k. from + k) len (slice_of xs from len)
unfolding slice_of
slice_of_lem xs from len h fits = record {
  bytes = take len (drop from xs);
  returns = rw (le→leb _ _ fits) refl;
  count = omega (arith, length-take len (drop from xs), length-drop from xs);
  are_bytes = All-take IsByte len (drop from xs) (All-drop IsByte from xs h);
  places = λ k lt. get_elem?-take (drop from xs) len k lt ∙ get_elem?-drop_add xs from k;
}

-- The place in the block of byte `k` of chunk `c`: the chunks run from 0x1ff8 on, and wrap.
abbrev pub rotated : ℕ → ℕ → ℕ
rotated c k = (0x1ff8 + 16 * c + k) % 0x4000

offset_lem :
    (c : ℕ)
    → c < 0x400
    → chunk_to_offset c ≢ 0x3ff8
    → (chunk_to_offset c + 16 ≤ 0x4000) × ((k : ℕ) → k < 16 → chunk_to_offset c + k ≡ rotated c k)
unfolding chunk_to_offset
offset_lem c h ne = (ground arith, λ k lt. ground arith)

boundary_lem : (c : ℕ) → c < 0x400 → chunk_to_offset c ≡ 0x3ff8 → c ≡ 0x200
unfolding chunk_to_offset
boundary_lem c h e = ground arith

-- The two halves of the chunk at the end of the block.
joined :
    (block front back : List ℕ) (c k : ℕ)
    → c ≡ 0x200
    → k < 16
    → length front ≡ 8
    → ((j : ℕ) → j < 8 → get_elem? front j ≡ get_elem? block (0x3ff8 + j))
    → ((j : ℕ) → j < 8 → get_elem? back j ≡ get_elem? block (0 + j))
    → get_elem? (front ++ back) k ≡ get_elem? block (rotated c k)
joined block front back c k e lt len hf hb = elim (Bool-cases (ltb k 8)) [
  | inl low ↦
      get_elem?-append_left front back k (ground arith)
      ∙ hf k (ground arith)
      ∙ ap (get_elem? block) (rw e (ground arith))
  | inr high ↦
      get_elem?-append_right front back k (k - 8) (ground arith)
      ∙ hb (k - 8) (ground arith)
      ∙ ap (get_elem? block) (rw e (ground arith))
]

block_lem :
    (block : List ℕ) (c : ℕ)
    → All IsByte block
    → length block ≡ 0x4000
    → c < 0x400
    → IsGathered block (rotated c) 16 (
        if chunk_to_offset c == 0x3ff8
        then (do
          front ← slice_of block (chunk_to_offset c) 8
          back ← slice_of block 0 8
          ok (front ++ back))
        else slice_of block (chunk_to_offset c) 16)
block_lem block c h len hc = elim (ℕ_discrete (chunk_to_offset c) 0x3ff8) [
  | yes boundary ↦
      let front = slice_of_lem block 0x3ff8 8 h (omega (arith, len)) in
      let back = slice_of_lem block 0 8 h (omega (arith, len)) in
      rw (boundary, front.returns, back.returns)
        (record {
          bytes = front.bytes ++ back.bytes;
          returns = refl;
          count = omega (arith, length-append front.bytes back.bytes, front.count, back.count);
          are_bytes = All-append IsByte front.bytes back.bytes front.are_bytes back.are_bytes;
          places = λ k lt.
              joined block front.bytes back.bytes c k (boundary_lem c hc boundary) lt front.count
                front.places back.places;
        })
  | no inside ↦
      let (fits, same) = offset_lem c hc inside in
      let all = slice_of_lem block (chunk_to_offset c) 16 h (omega (arith, len)) in
      rw (ne→== (chunk_to_offset c) 0x3ff8 inside, all.returns)
        (record {
          bytes = all.bytes;
          returns = refl;
          count = all.count;
          are_bytes = all.are_bytes;
          places = λ k lt. all.places k lt ∙ ap (get_elem? block) (same k lt);
        })
]

-- Chunk `i` of data in whole blocks of 0x4000 bytes is read without a panic: its byte `k` is byte
-- `(0x1ff8 + 16 * (i % 0x400) + k) % 0x4000` of block `i / 0x400`, so the chunks of a block are the
-- block itself, rotated to begin at 0x1ff8.
pub block_get_chunk-IsGathered :
    (input : List ℕ) (i : ℕ)
    → All IsByte input
    → length input % 0x4000 ≡ 0
    → i < length input / 16
    → IsGathered input
        (λ k. i / 0x400 * 0x4000 + rotated (i % 0x400) k)
        16
        (block_get_chunk input i)
unfolding block_get_chunk
block_get_chunk-IsGathered input i h whole inside =
    let block_idx : i * 16 / 0x4000 ≡ i / 0x400 = omega arith in
    let block = slice_of_lem input (i / 0x400 * 0x4000) 0x4000 h (omega arith) in
    let chunk = block_lem block.bytes (i % 0x400) block.are_bytes block.count (omega arith) in
    rw (block_idx, block.returns)
      (record {
        bytes = chunk.bytes;
        returns = chunk.returns;
        count = chunk.count;
        are_bytes = chunk.are_bytes;
        places = λ k lt. chunk.places k lt ∙ block.places (rotated (i % 0x400) k) (omega arith);
      })

past_first :
    (xs ys : List ℕ) (j : ℕ) → length xs ≡ 14 → drop (14 * suc j) (xs ++ ys) ≡ drop (14 * j) ys
past_first xs ys j len =
    let split : 14 * suc j ≡ 14 + 14 * j = omega arith in
    ap (λ n. drop n (xs ++ ys)) split
    ∙ drop-drop (xs ++ ys) 14 (14 * j)
    ∙ ap (drop (14 * j)) (drop-length xs ys 14 (sym len))

-- The pixels of the chunks from `i` on, one after the other.
pub record IsPixels (input : List ℕ) (i left : ℕ) (r : Result (List ℕ)) : Type 0 where
  pub pixels : List ℕ
  pub returns : r ≡ ok pixels
  pub count : length pixels ≡ 14 * left
  pub bounded : All (λ v. v < 2 ^ 14) pixels
  pub chunk :
      (j : ℕ)
      → j < left
      → (block_get_chunk input (i + j) >>= decode_chunk) ≡ ok (take 14 (drop (14 * j) pixels))

decode_chunks_lem :
    (input : List ℕ) (left i : ℕ)
    → All IsByte input
    → length input % 0x4000 ≡ 0
    → i + left ≤ length input / 16
    → IsPixels input i left (decode_chunks input i left)
unfolding decode_chunks
decode_chunks_lem input zero i h whole fits = record {
  pixels = [];
  returns = refl;
  count = refl;
  bounded = tt;
  chunk = λ j lt. absurd (omega arith);
}
decode_chunks_lem input (suc left) i h whole fits =
    let c = block_get_chunk-IsGathered input i h whole (omega arith) in
    let d = decode_chunk-IsDecoded c.bytes c.count c.are_bytes in
    let rest = decode_chunks_lem input left (i + 1) h whole (omega arith) in
    rw (c.returns, d.returns, rest.returns)
      (record {
        pixels = d.pixels ++ rest.pixels;
        returns = refl;
        count = omega (arith, length-append d.pixels rest.pixels, d.fourteen, rest.count);
        bounded = All-append _ d.pixels rest.pixels d.bounded rest.bounded;
        chunk = elim [
          | zero ↦ λ lt.
              let here : i + 0 ≡ i = omega arith in
              rw (here, c.returns)
                (d.returns ∙ ap ok (sym (take-length d.pixels rest.pixels 14 (sym d.fourteen))))
          | suc j ↦ λ lt.
              let next : i + suc j ≡ i + 1 + j = omega arith in
              rw (next, past_first d.pixels rest.pixels j d.fourteen) (rest.chunk j (omega arith))
        ];
      })

-- `panasonic_raw1` fails with `UnexpectedEOF` exactly on data that is not whole blocks of 0x4000
-- bytes. On whole blocks it returns, without a panic, 14 pixels below 2 ^ 14 for each 16 bytes:
-- those of chunk `j`, decoded, are the 14 from `14 * j` on.
pub panasonic_raw1_outcome :
    (input : List ℕ)
    → All IsByte input
    → (length input % 0x4000 ≢ 0 → panasonic_raw1 input ≡ err unexpected_eof)
      × (length input % 0x4000 ≡ 0 → IsPixels input 0 (length input / 16) (panasonic_raw1 input))
unfolding panasonic_raw1
panasonic_raw1_outcome input h = (
  λ part. rw (ne→== (length input % 0x4000) 0 part) refl,
  λ whole. rw whole (decode_chunks_lem input (length input / 16) 0 h whole (omega arith)),
)
