-- ===== src/Decompress/Unpack.antt =====
-- src/decompress.rs: `unpack_be12to16` and `unpack_le12to16`, which widen packed 12-bit samples.
-- Both source functions are one loop over three input bytes at a time; it is written once here,
-- over the two samples that three bytes stand for.
pub mod Layout
pub mod RoundTrip
pub mod Outcomes
mod Examples
use libopenraw.Prelude.{
  ℕ, zero, suc, ◌+◌, ◌*◌, ◌/◌, ◌%◌, Bool, true, false, not, ◌&&◌, ◌||◌, List, [], ◌∷◌, ◌++◌, ◌==◌,
  if◌then◌else◌, length, Result, ok, decompression, ◌>>=◌, ◌>>◌, reject_if, index, bit_and, bit_or,
  shl, shr,
}
use libopenraw.Tiff.{Compression, nikon_pack, panasonic_raw1, olympus}

-- `o0` and `o1` of `unpack_be12to16`.
unfoldable pub be_pair : ℕ → ℕ → ℕ → ℕ × ℕ
be_pair i0 i1 i2 = (bit_or (shl 16 i0 4) (shr i1 4), bit_or (shl 16 (bit_and i1 0xf) 8) i2)

-- The two values that `unpack_le12to16` pushes.
unfoldable pub le_pair : ℕ → ℕ → ℕ → ℕ × ℕ
le_pair b1 b2 b3 = (bit_or (shl 16 (bit_and b2 0xf) 8) b1, bit_or (shl 16 b3 4) (shr b2 4))

-- `src`, the index in the input; what was pushed; how many values were written.
pub record Progress : Type 0 where
  pub src : ℕ
  pub out_data : List ℕ
  pub written : ℕ

module _ (pair : ℕ → ℕ → ℕ → ℕ × ℕ) (input : List ℕ) where
  -- `for _ in 0..m`
  unfoldable pub unpack_triples : ℕ → Progress → Result Progress
  unpack_triples zero p = ok p
  unpack_triples (suc m) p = do
    i0 ← index input p.src
    i1 ← index input (p.src + 1)
    i2 ← index input (p.src + 2)
    let o = pair i0 i1 i2
    unpack_triples m (record {
      src = p.src + 3;
      out_data = p.out_data ++ o.0 ∷ o.1 ∷ [];
      written = p.written + 2;
    })

  -- `for i in 0..=n`, with `left` groups of 5 still before the last one.
  unfoldable pub unpack_groups : ℕ → ℕ → ℕ → Progress → Result Progress
  unpack_groups pad rest zero p = do
    q ← unpack_triples (rest / 3) p
    ok (record q { src = q.src + pad })
  unpack_groups pad rest (suc left) p = do
    q ← unpack_triples 5 p
    unpack_groups pad rest left (record q { src = q.src + pad })

  unfoldable pub unpack_12to16 : ℕ → List ℕ → Result (ℕ × List ℕ)
  unpack_12to16 pad out_data = do
    let n = length input / (15 + pad)
    let rest = length input % (15 + pad)
    reject_if (not (pad == 0) && not (length input % 16 == 0)) decompression
    reject_if (not (rest % 3 == 0)) decompression
    p ← unpack_groups pad rest n (record { src = 0; out_data = out_data; written = 0 })
    ok (p.written, p.out_data)

unfoldable pub be_pad : Compression → ℕ
be_pad nikon_pack = 1
be_pad _ = 0

unfoldable pub le_pad : Compression → ℕ
le_pad olympus = 1
le_pad panasonic_raw1 = 1
le_pad _ = 0

-- The written count and `out_data` after the call.
unfoldable pub unpack_be12to16 : List ℕ → List ℕ → Compression → Result (ℕ × List ℕ)
unpack_be12to16 input out_data compression =
    unpack_12to16 be_pair input (be_pad compression) out_data

unfoldable pub unpack_le12to16 : List ℕ → List ℕ → Compression → Result (ℕ × List ℕ)
unpack_le12to16 input out_data compression =
    unpack_12to16 le_pair input (le_pad compression) out_data
