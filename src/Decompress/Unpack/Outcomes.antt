-- ===== src/Decompress/Unpack/Outcomes.antt =====
-- Unpacking on every input: when it is refused, and that it otherwise returns.
use libopenraw.Prelude.{
  ℕ, zero, suc, ◌+◌, ◌*◌, ◌/◌, ◌%◌, ◌<◌, ◌≤◌, ◌≡◌, ◌⊎◌, refl, ◌∙◌, List, [], ◌∷◌, ◌++◌, All,
  All-append, All-get_or, length, length-append, append_assoc, append-nil, get_or, ok, err,
  decompression, index_lem, bit_and_mask, bit_or_fields, arith, false, not, ◌&&◌, ◌==◌,
}
use native.Mathlib.Nat.{div-add-mod}
use libopenraw.Tiff.{Compression}
use libopenraw.Decompress.Unpack.{
  unpack_triples, unpack_groups, unpack_12to16, be_pair, le_pair, unpack_be12to16, unpack_le12to16,
  be_pad, le_pad,
}
use libopenraw.Decompress.Unpack.Layout.{IsSample}

abbrev pub IsByte : ℕ → Type 0
IsByte b = b < 256

abbrev pub Is12Bit : ℕ → Type 0
Is12Bit v = v < 4096

-- The lengths that the two guards let through.
abbrev pub IsWhole : ℕ → ℕ → Type 0
IsWhole pad n = ((pad ≡ 0) ⊎ (n % 16 ≡ 0)) × (n % (15 + pad) % 3 ≡ 0)

be_pair-IsSample : (a b c : ℕ) → a < 256 → b < 256 → c < 256 → IsSample (be_pair a b c)
unfolding be_pair
be_pair-IsSample a b c ha hb hc =
    ground (arith, bit_and_mask 4 b, bit_or_fields 4 a (b / 16), bit_or_fields 8 (b % 16) c)

le_pair-IsSample : (a b c : ℕ) → a < 256 → b < 256 → c < 256 → IsSample (le_pair a b c)
unfolding le_pair
le_pair-IsSample a b c ha hb hc =
    ground (arith, bit_and_mask 4 b, bit_or_fields 8 (b % 16) a, bit_or_fields 4 c (b / 16))

guards_open : (pad n : ℕ) → IsWhole pad n → (not (pad == 0) && not (n % 16 == 0)) ≡ false
guards_open pad n whole = ground arith

rest_open : (pad n : ℕ) → IsWhole pad n → not (n % (15 + pad) % 3 == 0) ≡ false
rest_open pad n whole = ground arith

refused :
    (pair : ℕ → ℕ → ℕ → ℕ × ℕ) (input : List ℕ) (pad : ℕ) (out_data : List ℕ)
    → ¬ IsWhole pad (length input)
    → unpack_12to16 pair input pad out_data ≡ err decompression
unfolding unpack_12to16
refused pair input pad out_data bad = ground arith

module _ (pair : ℕ → ℕ → ℕ → ℕ × ℕ)
    (fits : (a b c : ℕ) → a < 256 → b < 256 → c < 256 → IsSample (pair a b c)) (input : List ℕ)
    (bytes : All IsByte input) where
  abbrev pair_at : ℕ → ℕ × ℕ
  pair_at src = pair (get_or input src 0) (get_or input (src + 1) 0) (get_or input (src + 2) 0)

  -- The values that `m` triples from `src` on unpack to.
  pushed : ℕ → ℕ → List ℕ
  pushed zero src = []
  pushed (suc m) src = (pair_at src).0 ∷ (pair_at src).1 ∷ pushed m (src + 3)

  length-pushed : (m src : ℕ) → length (pushed m src) ≡ 2 * m
  unfolding pushed
  length-pushed zero src = refl
  length-pushed (suc m) src = omega (arith, length-pushed m (src + 3))

  pushed-Is12Bit : (m src : ℕ) → src + 3 * m ≤ length input → All Is12Bit (pushed m src)
  unfolding pushed
  pushed-Is12Bit zero src h = tt
  pushed-Is12Bit (suc m) src h =
      let sample =
        fits (get_or input src 0) (get_or input (src + 1) 0) (get_or input (src + 2) 0)
          (All-get_or IsByte input src 0 bytes (omega arith))
          (All-get_or IsByte input (src + 1) 0 bytes (omega arith))
          (All-get_or IsByte input (src + 2) 0 bytes (omega arith)) in
      (sample.0, (sample.1, pushed-Is12Bit m (src + 3) (omega arith)))

  triples_return :
      (m src written : ℕ) (out_data : List ℕ)
      → src + 3 * m ≤ length input
      → unpack_triples pair input m (record { src = src; out_data = out_data; written = written })
        ≡ ok (record {
          src = src + 3 * m;
          out_data = out_data ++ pushed m src;
          written = written + 2 * m;
        })
  unfolding unpack_triples pushed
  triples_return zero src written out_data h = ground (arith, append-nil out_data)
  triples_return (suc m) src written out_data h =
      let two = (pair_at src).0 ∷ (pair_at src).1 ∷ [] in
      rw
        (
          index_lem input src 0 (omega arith),
          index_lem input (src + 1) 0 (omega arith),
          index_lem input (src + 2) 0 (omega arith),
        )
        (triples_return m (src + 3) (written + 2) (out_data ++ two) (omega arith)
          ∙ ground (arith, append_assoc out_data two (pushed m (src + 3))))

  -- The values of `left` groups from `src` on, and of the rest behind them.
  pushed_groups : ℕ → ℕ → ℕ → ℕ → List ℕ
  pushed_groups pad rest zero src = pushed (rest / 3) src
  pushed_groups pad rest (suc left) src =
      pushed 5 src ++ pushed_groups pad rest left (src + 15 + pad)

  length-pushed_groups :
      (pad rest left src : ℕ)
      → length (pushed_groups pad rest left src) ≡ 10 * left + 2 * (rest / 3)
  unfolding pushed_groups
  length-pushed_groups pad rest zero src = omega (arith, length-pushed (rest / 3) src)
  length-pushed_groups pad rest (suc left) src = omega (
    arith,
    length-append (pushed 5 src) (pushed_groups pad rest left (src + 15 + pad)),
    length-pushed 5 src,
    length-pushed_groups pad rest left (src + 15 + pad),
  )

  groups_Is12Bit :
      (pad rest left src : ℕ)
      → src + left * (15 + pad) + rest ≤ length input
      → All Is12Bit (pushed_groups pad rest left src)
  unfolding pushed_groups
  groups_Is12Bit pad rest zero src h = pushed-Is12Bit (rest / 3) src (omega arith)
  groups_Is12Bit pad rest (suc left) src h =
      All-append Is12Bit (pushed 5 src) (pushed_groups pad rest left (src + 15 + pad))
        (pushed-Is12Bit 5 src (omega arith))
        (groups_Is12Bit pad rest left (src + 15 + pad) (omega arith))

  groups_return :
      (pad rest left src written : ℕ) (out_data : List ℕ)
      → src + left * (15 + pad) + rest ≤ length input
      → (last : ℕ) × (unpack_groups pair input pad rest left
            (record { src = src; out_data = out_data; written = written })
          ≡ ok (record {
            src = last;
            out_data = out_data ++ pushed_groups pad rest left src;
            written = written + (10 * left + 2 * (rest / 3));
          }))
  unfolding unpack_groups pushed_groups
  groups_return pad rest zero src written out_data h = (
    src + 3 * (rest / 3) + pad,
    rw (triples_return (rest / 3) src written out_data (omega arith)) (ground arith),
  )
  groups_return pad rest (suc left) src written out_data h =
      let (last, e) =
        groups_return pad rest left (src + 15 + pad) (written + 10) (out_data ++ pushed 5 src)
          (omega arith) in
      (
        last,
        rw (triples_return 5 src written out_data (omega arith)) (
            e
            ∙ ground (
              arith,
              append_assoc out_data (pushed 5 src) (pushed_groups pad rest left (src + 15 + pad)),
            )),
      )

  returns :
      (pad : ℕ) (out_data : List ℕ)
      → IsWhole pad (length input)
      → (px : List ℕ) × (unpack_12to16 pair input pad out_data ≡ ok (length px, out_data ++ px))
        × (length px ≡ 10 * (length input / (15 + pad)) + 2 * (length input % (15 + pad) / 3))
        × All Is12Bit px
  unfolding unpack_12to16
  returns pad out_data whole =
      let n = length input / (15 + pad) in
      let rest = length input % (15 + pad) in
      let room : 0 + n * (15 + pad) + rest ≤ length input =
        omega (arith, div-add-mod (length input) (15 + pad)) in
      let px = pushed_groups pad rest n 0 in
      let count = length-pushed_groups pad rest n 0 in
      let (last, e) = groups_return pad rest n 0 0 out_data room in
      (
        px,
        rw (guards_open pad (length input) whole, rest_open pad (length input) whole, e)
            (ground (arith, count)),
        count,
        groups_Is12Bit pad rest n 0 room,
      )

-- A big-endian call on bytes fails with `Decompression` exactly when its length is not whole: not a
-- multiple of 16 under `NikonPack`, or with a rest that is no multiple of 3. Otherwise it returns the
-- number of values pushed, 10 for each full group and 2 for each 3 bytes of the rest, every one
-- below 4096; what `out_data` held stays in front.
pub be_unpack_outcome :
    (compression : Compression) (input out_data : List ℕ)
    → All IsByte input
    → (¬ IsWhole (be_pad compression) (length input)
        → unpack_be12to16 input out_data compression ≡ err decompression)
      × (IsWhole (be_pad compression) (length input)
          → (px : List ℕ) × (unpack_be12to16 input out_data compression
              ≡ ok (length px, out_data ++ px))
            × (length px
                ≡ 10 * (length input / (15 + be_pad compression))
                  + 2 * (length input % (15 + be_pad compression) / 3))
            × All Is12Bit px)
unfolding unpack_be12to16
be_unpack_outcome compression input out_data bytes = (
  refused be_pair input (be_pad compression) out_data,
  returns be_pair be_pair-IsSample input bytes (be_pad compression) out_data,
)

-- The little-endian call likewise, where `Olympus` and `PanasonicRaw1` want a multiple of 16.
pub le_unpack_outcome :
    (compression : Compression) (input out_data : List ℕ)
    → All IsByte input
    → (¬ IsWhole (le_pad compression) (length input)
        → unpack_le12to16 input out_data compression ≡ err decompression)
      × (IsWhole (le_pad compression) (length input)
          → (px : List ℕ) × (unpack_le12to16 input out_data compression
              ≡ ok (length px, out_data ++ px))
            × (length px
                ≡ 10 * (length input / (15 + le_pad compression))
                  + 2 * (length input % (15 + le_pad compression) / 3))
            × All Is12Bit px)
unfolding unpack_le12to16
le_unpack_outcome compression input out_data bytes = (
  refused le_pair input (le_pad compression) out_data,
  returns le_pair le_pair-IsSample input bytes (le_pad compression) out_data,
)
