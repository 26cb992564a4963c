-- ===== src/Decompress/Ljpeg/Huffman.antt =====
-- src/decompress/ljpeg.rs: the Huffman tables, how they are derived from a DHT segment, and how a
-- code is decoded.
use libopenraw.Prelude.{
  ℕ, zero, suc, ◌+◌, ◌-◌, ◌%◌, ◌^◌, true, false, not, List, [], ◌∷◌, ◌==◌, leb, ltb, if◌then◌else◌,
  length, replicate, Result, ok, panic, jpeg_format, ◌>>=◌, ◌>>◌, reject_if, require, index, update,
  bit_or, shl, ℤ, pos, negsuc, ◌+ℤ◌, ◌-ℤ◌, ltb_ℤ,
}
use libopenraw.Decompress.BitReader.{LJpegBitReader, peek, consume, get_bits}

pub record HuffmanTable : Type 0 where
  pub bits : List ℕ
  pub huffval : List ℕ
  pub ehufco : List ℕ
  pub ehufsi : List ℕ
  pub mincode : List ℤ
  pub maxcode : List ℤ
  pub valptr : List ℕ
  pub numbits : List ℕ
  pub value : List ℕ

-- `HuffmanTable::default`
abbrev pub default_table : HuffmanTable
default_table = record {
  bits = replicate 17 0;
  huffval = replicate 256 0;
  ehufco = replicate 256 0;
  ehufsi = replicate 256 0;
  mincode = replicate 17 (pos 0);
  maxcode = replicate 18 (pos 0);
  valptr = replicate 17 0;
  numbits = replicate 256 0;
  value = replicate 256 0;
}

abbrev pub bit_mask : List ℕ
bit_mask =
    0xffffffff ∷ 0x7fffffff ∷ 0x3fffffff ∷ 0x1fffffff ∷ 0x0fffffff ∷ 0x07ffffff ∷ 0x03ffffff
    ∷ 0x01ffffff ∷ 0x00ffffff ∷ 0x007fffff ∷ 0x003fffff ∷ 0x001fffff ∷ 0x000fffff ∷ 0x0007ffff
    ∷ 0x0003ffff ∷ 0x0001ffff ∷ 0x0000ffff ∷ 0x00007fff ∷ 0x00003fff ∷ 0x00001fff ∷ 0x00000fff
    ∷ 0x000007ff ∷ 0x000003ff ∷ 0x000001ff ∷ 0x000000ff ∷ 0x0000007f ∷ 0x0000003f ∷ 0x0000001f
    ∷ 0x0000000f ∷ 0x00000007 ∷ 0x00000003 ∷ 0x00000001 ∷ []

-- Figure C.1: `for _ in 1..=bits[l]`, on `huffsize` and `p`.
unfoldable pub write_sizes : ℕ → ℕ → List ℕ → ℕ → Result (List ℕ × ℕ)
write_sizes zero l huffsize p = ok (huffsize, p)
write_sizes (suc left) l huffsize p = do
  huffsize' ← update huffsize p l
  write_sizes left l huffsize' (p + 1)

-- `for l in 1..=16`, from `l` on with `left` lengths to go.
unfoldable pub write_all_sizes : List ℕ → ℕ → ℕ → List ℕ → ℕ → Result (List ℕ × ℕ)
write_all_sizes bits zero l huffsize p = ok (huffsize, p)
write_all_sizes bits (suc left) l huffsize p = do
  n ← index bits l
  q ← write_sizes n l huffsize p
  write_all_sizes bits left (l + 1) q.0 q.1

-- Figure C.2: the inner loop, `while huffsize[p] == si`. It passes an entry in each round, and
-- there are 257.
unfoldable pub write_codes : ℕ → List ℕ → ℕ → List ℕ → ℕ → ℕ → Result (List ℕ × ℕ × ℕ)
write_codes zero huffsize si huffcode p code = panic
write_codes (suc left) huffsize si huffcode p code = do
  size ← index huffsize p
  elim (size == si) [
    | true ↦ do
      huffcode' ← update huffcode p (code % 2 ^ 16)
      reject_if (ltb 65535 (code + 1)) jpeg_format
      write_codes left huffsize si huffcode' (p + 1) (code + 1)
    | false ↦ ok (huffcode, p, code)
  ]

-- The outer loop: `si` grows in each round, up to the longest length, 16.
unfoldable pub write_all_codes : ℕ → List ℕ → ℕ → List ℕ → ℕ → ℕ → Result (List ℕ)
write_all_codes zero huffsize si huffcode p code = panic
write_all_codes (suc left) huffsize si huffcode p code = do
  size ← index huffsize p
  elim (size == 0) [
    | true ↦ ok huffcode
    | false ↦ do
      q ← write_codes 258 huffsize si huffcode p code
      write_all_codes left huffsize (si + 1) q.0 q.1 (shl 32 q.2 1)
  ]

-- Figure C.3: `for p in 0..lastp`.
unfoldable pub write_encoding : ℕ → ℕ → List ℕ → List ℕ → HuffmanTable → Result HuffmanTable
write_encoding zero p huffsize huffcode t = ok t
write_encoding (suc left) p huffsize huffcode t = do
  symbol ← index t.huffval p
  code ← index huffcode p
  ehufco' ← update t.ehufco symbol code
  size ← index huffsize p
  ehufsi' ← update t.ehufsi symbol size
  write_encoding left (p + 1) huffsize huffcode (record t { ehufco = ehufco'; ehufsi = ehufsi' })

-- Figure F.15: one code length `l`; `p` counts the codes that are shorter.
unfoldable pub write_decoding : List ℕ → ℕ → ℕ → HuffmanTable → Result (ℕ × HuffmanTable)
write_decoding huffcode l p t = do
  n ← index t.bits l
  (if n == 0
      then (do maxcode' ← update t.maxcode l (negsuc 0); ok (p, record t { maxcode = maxcode' }))
      else (do
        valptr' ← update t.valptr l p
        first ← index huffcode p
        mincode' ← update t.mincode l (pos first)
        reject_if (ltb 256 (p + n)) jpeg_format
        last ← index huffcode (p + n - 1)
        maxcode' ← update t.maxcode l (pos last)
        ok (p + n, record t { valptr = valptr'; mincode = mincode'; maxcode = maxcode' })))

unfoldable pub write_all_decoding : List ℕ → ℕ → ℕ → ℕ → HuffmanTable → Result HuffmanTable
write_all_decoding huffcode zero l p t = ok t
write_all_decoding huffcode (suc left) l p t = do
  q ← write_decoding huffcode l p t
  write_all_decoding huffcode left (l + 1) q.0 q.1

-- `for i in ll..=ul`
unfoldable pub write_lookups : ℕ → ℕ → ℕ → ℕ → HuffmanTable → Result HuffmanTable
write_lookups zero i size v t = ok t
write_lookups (suc left) i size v t = do
  numbits' ← update t.numbits i size
  value' ← update t.value i v
  write_lookups left (i + 1) size v (record t { numbits = numbits'; value = value' })

-- The lookups of the code `p`, where it has at most 8 bits.
unfoldable pub write_lookup : List ℕ → List ℕ → ℕ → HuffmanTable → Result HuffmanTable
write_lookup huffsize huffcode p t = do
  size ← index huffsize p
  (if leb size 8
      then (do
        v ← index t.huffval p
        code ← index huffcode p
        let ll = shl 32 code (8 - size)
        ul ←
            (if ltb size 8
              then (do mask ← index bit_mask (24 + size); ok (bit_or ll mask))
              else ok ll)
        reject_if (leb (length t.numbits) ll) jpeg_format
        write_lookups (ul + 1 - ll) ll size v t)
      else ok t)

unfoldable pub write_all_lookups : ℕ → ℕ → List ℕ → List ℕ → HuffmanTable → Result HuffmanTable
write_all_lookups zero p huffsize huffcode t = ok t
write_all_lookups (suc left) p huffsize huffcode t = do
  t' ← write_lookup huffsize huffcode p t
  write_all_lookups left (p + 1) huffsize huffcode t'

-- `HuffmanTable::fix`
unfoldable pub fix : HuffmanTable → Result HuffmanTable
fix t = do
  sizes ← write_all_sizes t.bits 16 1 (replicate 257 0) 0
  let lastp = sizes.1
  huffsize ← update sizes.0 lastp 0
  si ← index huffsize 0
  huffcode ← write_all_codes 18 huffsize si (replicate 257 0) 0 0
  t1 ← write_encoding lastp 0 huffsize huffcode (record t { ehufsi = replicate 256 0 })
  t2 ← write_all_decoding huffcode 16 1 0 t1
  maxcode' ← update t2.maxcode 17 (pos 0xfffff)
  write_all_lookups lastp 0 huffsize huffcode
      (record t2 { maxcode = maxcode'; numbits = replicate 256 0 })

-- `htbl.huffval[i as usize]`: a negative index is far past the end.
unfoldable pub index_signed : List ℕ → ℤ → Result ℕ
index_signed xs (pos i) = index xs i
index_signed xs (negsuc i) = panic

-- `while code > htbl.maxcode[l]`: the code and its length. `maxcode` has 18 entries, and reading
-- behind them panics, so that 10 rounds from length 8 are all there can be.
unfoldable pub longer_code :
    ℕ → HuffmanTable → ℕ → ℕ → LJpegBitReader → Result (ℕ × ℕ × LJpegBitReader)
longer_code zero htbl code l r = panic
longer_code (suc left) htbl code l r = do
  bound ← index htbl.maxcode l
  elim (ltb_ℤ bound (pos code)) [
    | true ↦ do
      (temp, r') ← get_bits 1 r
      longer_code left htbl (bit_or (shl 32 code 1) temp) (l + 1) r'
    | false ↦ ok (code, l, r)
  ]

unfoldable pub huff_decode : HuffmanTable → LJpegBitReader → Result (ℕ × LJpegBitReader)
huff_decode htbl r = do
  (code, r1) ← peek 8 r
  n ← index htbl.numbits code
  (if not (n == 0) then (do r2 ← consume n r1; rv ← index htbl.value code; ok (rv, r2)) else (do
    r2 ← consume 8 r1
    q ← longer_code 10 htbl code 8 r2
    (if ltb 16 q.1 then ok (0, q.2) else (do
      ptr ← index htbl.valptr q.1
      first ← index htbl.mincode q.1
      rv ← index_signed htbl.huffval (pos ptr +ℤ (pos q.0 -ℤ first))
      ok (rv, q.2)))))

-- `extend`: `vt` is a `u16`, and a shift by `s - 1` needs `1 <= s <= 16`.
unfoldable pub extend_sign : ℕ → ℕ → Result ℤ
extend_sign x s = do
  require (leb 1 s)
  require (leb s 16)
  let vt = 2 ^ (s - 1)
  ok (if ltb x vt then pos (x + 1) -ℤ pos (2 ^ s) else pos x)

-- Section F.2.2.1, in four places of the decoder: the decoded difference.
unfoldable pub decode_difference : HuffmanTable → LJpegBitReader → Result (ℤ × LJpegBitReader)
decode_difference htbl r = do
  (s, r1) ← huff_decode htbl r
  (if not (s == 0)
      then (do (x, r2) ← get_bits s r1; d ← extend_sign x s; ok (d, r2))
      else ok (pos 0, r1))
