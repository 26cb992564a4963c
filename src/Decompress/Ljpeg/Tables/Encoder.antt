-- ===== src/Decompress/Ljpeg/Tables/Encoder.antt =====
-- Figure C.3: the encoder's tables, which the decoder does not use.
use libopenraw.Prelude.{
  ℕ, zero, suc, ◌+◌, ◌≤◌, ◌<◌, ◌≡◌, refl, ◌∙◌, List, All, All-get_or, length, length-set, set,
  get_or, ok, index_lem, update_lem, arith,
}
use libopenraw.Decompress.Ljpeg.Huffman.{HuffmanTable, write_encoding}

-- The encoder's tables are written for symbols below 256.
pub write_encoding_returns :
    (left p : ℕ) (huffsize huffcode : List ℕ) (t : HuffmanTable)
    → p + left ≤ length t.huffval
    → p + left ≤ length huffsize
    → p + left ≤ length huffcode
    → All (λ symbol. symbol < 256) t.huffval
    → length t.ehufco ≡ 256
    → length t.ehufsi ≡ 256
    → (codes : List ℕ) × (sizes : List ℕ) × (write_encoding left p huffsize huffcode t
        ≡ ok (record t { ehufco = codes; ehufsi = sizes }))
unfolding write_encoding
write_encoding_returns zero p huffsize huffcode t a b c small e f = (t.ehufco, t.ehufsi, refl)
write_encoding_returns (suc left) p huffsize huffcode t a b c small e f =
    let symbol = get_or t.huffval p 0 in
    let code = get_or huffcode p 0 in
    let size = get_or huffsize p 0 in
    let under : symbol < 256 = All-get_or (λ s. s < 256) t.huffval p 0 small (omega arith) in
    let co : List ℕ = set t.ehufco symbol code in
    let si : List ℕ = set t.ehufsi symbol size in
    let (codes, sizes, returns) =
      write_encoding_returns left (p + 1) huffsize huffcode (record t { ehufco = co; ehufsi = si })
        (omega (arith, a)) (omega (arith, b)) (omega (arith, c)) small
        (length-set t.ehufco symbol code ∙ e) (length-set t.ehufsi symbol size ∙ f) in
    (
      codes,
      sizes,
      rw
          (
            index_lem t.huffval p 0 (omega (arith, a)),
            index_lem huffcode p 0 (omega (arith, c)),
            update_lem t.ehufco symbol code (omega (arith, under, e)),
            index_lem huffsize p 0 (omega (arith, b)),
            update_lem t.ehufsi symbol size (omega (arith, under, f)),
          )
          returns,
    )
