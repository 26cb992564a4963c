-- ===== src/Decompress/Ljpeg/Coding/Picture.antt =====
-- The picture is decoded from the bits of its rows, where there are no restarts.
use libopenraw.Prelude.{
  ℕ, zero, suc, ◌+◌, ◌-◌, ◌≤◌, ◌<◌, ◌≡◌, ◌==◌, true, sym, subst, ap, ◌∙◌, Bool, List, ◌++◌,
  append_assoc, append-nil, Result, ok, index, ◌>>=◌, bind_assoc, bind_cong, arith,
}
use libopenraw.Decompress.BitReader.{LJpegBitReader}
use libopenraw.Decompress.BitReader.Stream.{IsBefore}
use libopenraw.Decompress.SlicedBuffer.{SlicedBuffer, extend}
use libopenraw.Decompress.Ljpeg.Huffman.{HuffmanTable}
use libopenraw.Decompress.Ljpeg.Info.{DecompressInfo}
use libopenraw.Decompress.Ljpeg.Rows.{LJpeg, pm_put_row}
use libopenraw.Decompress.Ljpeg.Image.{
  Decoding, put_row, first_row_step, row_step, image_step, image_steps, decode_image,
}
use libopenraw.Decompress.Ljpeg.Coding.Columns.{columns_bits}
use libopenraw.Decompress.Ljpeg.Coding.Decoded.{
  decode_row-IsOn, decode_first_row-IsFirstRow, table_of_checked,
}
use libopenraw.Decompress.Ljpeg.Coding.Output.{row_values, pm_put_row_lem, pm_put_row_first}
use libopenraw.Decompress.Ljpeg.Coding.Ready.{
  rows_bits, rows_values, swapped, IsReady, start_of, swapped-IsReady, put_row_lem, IsPicture,
  decoding,
}

module _ (m : ℕ) (rest : List ℕ) (dc : DecompressInfo) (T : ℕ → HuffmanTable) (P : ℕ → ℕ → ℕ → ℕ)
    (B : ℕ → ℕ → ℕ → List Bool) where
  -- The rest of the picture: the values that were put out before, and those of its rows.
  pub record IsImage (before values : List ℕ) (out : SlicedBuffer ℕ) (more : List Bool)
      (step : SlicedBuffer ℕ → Result Decoding) : Type 0 where
    pub lj : LJpeg
    pub reader : LJpegBitReader
    pub returns :
        (extend before out >>= step)
        ≡ (extend (before ++ values) out >>= λ o. ok (decoding m rest dc T P B lj reader o))
    pub behind : IsBefore m rest more reader

  -- A row behind the first one.
  image_step_lem :
      (n : ℕ) (lj : LJpeg) (r : LJpegBitReader) (more : List Bool)
      → 1 ≤ m
      → IsPicture m rest dc T P B
      → suc n < dc.image_height
      → IsReady m rest dc T P B lj (P n)
      → IsBefore m rest (columns_bits (B (suc n)) dc.comps_in_scan dc.image_width 0 ++ more) r
      → (lj' : LJpeg) × (r' : LJpegBitReader) × (buf : List (List ℕ)) × ((columns : (c : ℕ)
            → c < dc.image_width
            → (mcu : List ℕ) × (index buf c ≡ ok mcu)
              × ((i : ℕ) → i < dc.comps_in_scan → index mcu i ≡ ok (P (suc n) c i)))
          × ((out : SlicedBuffer ℕ)
              → image_step (decoding m rest dc T P B lj r out) ≡ (
                  pm_put_row buf dc.comps_in_scan dc.image_width dc.pt out >>= λ o.
                  ok (decoding m rest dc T P B lj' r' o)))
          × IsReady m rest dc T P B lj' (P (suc n))
          × IsBefore m rest more r')
  unfolding image_step row_step
  image_step_lem n lj r more marker pic inside ready before =
      let on =
        decode_row-IsOn m rest dc lj T (P n) (P (suc n)) (B (suc n)) r more marker ready.apart
          pic.wide pic.tables (λ i k. pic.row_starts n i inside k)
          (λ c i low h k. pic.rows n c i inside low h k)
          (start_of m rest dc T P B lj (P n) (P (suc n)) (B (suc n)) ready) before in
      let (of, puts) =
        put_row_lem m rest dc T P B lj (P n) (P (suc n)) (B (suc n)) on.rows on.reader pic.wide
          pic.some_comps on.reached in
      let none : (dc.restart_in_rows == 0) ≡ true = ground (arith, pic.no_restarts) in
      (
        swapped lj on.rows,
        on.reader,
        of.buf,
        (
          of.columns,
          λ out. rw (none, on.returns) (puts out),
          swapped-IsReady m rest dc T P B lj (P n) (P (suc n)) (B (suc n)) on.rows ready.apart
              on.reached,
          on.before,
        ),
      )

  image_steps-IsImage :
      (left n : ℕ) (lj : LJpeg) (r : LJpegBitReader) (more : List Bool) (before : List ℕ)
      (out : SlicedBuffer ℕ)
      → 1 ≤ m
      → IsPicture m rest dc T P B
      → suc n + left ≡ dc.image_height
      → IsReady m rest dc T P B lj (P n)
      → IsBefore m rest (rows_bits B dc.comps_in_scan dc.image_width left (suc n) ++ more) r
      → IsImage before
          (rows_values P dc.comps_in_scan dc.pt dc.image_width left (suc n))
          out
          more
          (λ o. image_steps left (decoding m rest dc T P B lj r o))
  unfolding image_steps
  image_steps-IsImage zero n lj r more before out marker pic sum ready bits = record {
    lj = lj;
    reader = r;
    returns =
        ap (λ t. extend t out >>= λ o. ok (decoding m rest dc T P B lj r o))
          (sym (append-nil before));
    behind = bits;
  }
  image_steps-IsImage (suc left) n lj r more before out marker pic sum ready bits =
      let comps = dc.comps_in_scan in
      let others : List Bool = rows_bits B comps dc.image_width left (suc (suc n)) in
      let here : List Bool = columns_bits (B (suc n)) comps dc.image_width 0 in
      let values : List ℕ = row_values (P (suc n)) comps dc.pt dc.image_width 0 in
      let next : List ℕ = rows_values P comps dc.pt dc.image_width left (suc (suc n)) in
      let (lj', r', buf, facts) =
        image_step_lem n lj r (others ++ more) marker pic (omega (arith, sum)) ready
          (subst (λ b. IsBefore m rest b r) (append_assoc here others more) bits) in
      let (columns, steps, ready', bits') = facts in
      let all =
        image_steps-IsImage left (suc n) lj' r' more (before ++ values) out marker pic
          (omega (arith, sum)) ready' bits' in
      record {
        lj = all.lj;
        reader = all.reader;
        returns =
            bind_cong (extend before out) (λ o.
              ap (λ z. z >>= image_steps left) (steps o)
              ∙ bind_assoc (pm_put_row buf comps dc.image_width dc.pt o)
                  (λ o. ok (decoding m rest dc T P B lj' r' o)) (image_steps left))
            ∙ sym (
                bind_assoc (extend before out) (pm_put_row buf comps dc.image_width dc.pt)
                  (λ o. image_steps left (decoding m rest dc T P B lj' r' o)))
            ∙ ap (λ z. z >>= λ o. image_steps left (decoding m rest dc T P B lj' r' o))
                (pm_put_row_lem buf comps dc.pt dc.image_width (P (suc n)) columns out before)
            ∙ all.returns
            ∙ ap (λ t. extend t out >>= λ o. ok (decoding m rest dc T P B all.lj all.reader o))
                (append_assoc before values next);
        behind = all.behind;
      }

  -- What `decode_image` returns: its values in the output, and the reader behind the bits.
  pub record IsDecodedImage (values : List ℕ) (out : SlicedBuffer ℕ) (more : List Bool)
      (step : Result Decoding) : Type 0 where
    pub lj : LJpeg
    pub reader : LJpegBitReader
    pub returns : step ≡ (extend values out >>= λ o. ok (decoding m rest dc T P B lj reader o))
    pub behind : IsBefore m rest more reader

  first_row_lem :
      (U : ℕ → ℕ → ℕ) (lj : LJpeg) (r : LJpegBitReader) (more : List Bool) (out : SlicedBuffer ℕ)
      → 1 ≤ m
      → IsPicture m rest dc T P B
      → IsReady m rest dc T P B lj U
      → IsBefore m rest (columns_bits (B 0) dc.comps_in_scan dc.image_width 0 ++ more) r
      → (lj' : LJpeg) × (r' : LJpegBitReader) × (first_row_step (decoding m rest dc T P B lj r out)
          ≡ (extend (row_values (P 0) dc.comps_in_scan dc.pt dc.image_width 0) out >>= λ o.
              ok (decoding m rest dc T P B lj' r' o)))
        × IsReady m rest dc T P B lj' (P 0)
        × IsBefore m rest more r'
  unfolding first_row_step
  first_row_lem U lj r more out marker pic ready before =
      let none : (dc.restart_in_rows == 0) ≡ true = ground (arith, pic.no_restarts) in
      let first =
        decode_first_row-IsFirstRow m rest dc lj T U (P 0) (B 0) r more marker ready.apart pic.wide
          pic.precise (λ h. absurd (omega (arith, h, pic.no_restarts)))
          (λ i h. table_of_checked dc i (pic.tables i h)) pic.first_start pic.first_row
          (start_of m rest dc T P B lj U (P 0) (B 0) ready) before in
      let on = first.on in
      let row : first.row ≡ (record lj { mcu_row = on.rows }, on.reader) = cc (on.returns) in
      let (of, puts) =
        put_row_lem m rest dc T P B lj U (P 0) (B 0) on.rows on.reader pic.wide pic.some_comps
          on.reached in
      (
        swapped lj on.rows,
        on.reader,
        rw (first.returns, none)
            (ap (λ w. put_row (record { dc = dc; row = w; output = out })) row
              ∙ puts out
              ∙ ap (λ z. z >>= λ o. ok (decoding m rest dc T P B (swapped lj on.rows) on.reader o))
                  (pm_put_row_first of.buf dc.comps_in_scan dc.pt dc.image_width (P 0) of.columns
                    out pic.wide)),
        swapped-IsReady m rest dc T P B lj U (P 0) (B 0) on.rows ready.apart on.reached,
        on.before,
      )

  -- Where the bits send every sample of a picture without restarts, `decode_image` extends the output
  -- by the samples of all rows in order, with the point transform undone: what that `extend` returns is
  -- what it returns, panics included. The reader then stands behind the bits.
  pub decode_image-IsDecodedImage :
      (U : ℕ → ℕ → ℕ) (lj : LJpeg) (r : LJpegBitReader) (more : List Bool) (out : SlicedBuffer ℕ)
      → 1 ≤ m
      → IsPicture m rest dc T P B
      → IsReady m rest dc T P B lj U
      → IsBefore m rest (rows_bits B dc.comps_in_scan dc.image_width dc.image_height 0 ++ more) r
      → IsDecodedImage
          (rows_values P dc.comps_in_scan dc.pt dc.image_width dc.image_height 0)
          out
          more
          (decode_image (decoding m rest dc T P B lj r out))
  unfolding decode_image
  decode_image-IsDecodedImage U lj r more out marker pic ready bits =
      let comps = dc.comps_in_scan in
      let width = dc.image_width in
      let left = dc.image_height - 1 in
      let height : suc left ≡ dc.image_height = omega (arith, pic.high) in
      let here : List Bool = columns_bits (B 0) comps width 0 in
      let others : List Bool = rows_bits B comps width left 1 in
      let values : List ℕ = row_values (P 0) comps dc.pt width 0 in
      let bits' =
        subst (λ h. IsBefore m rest (rows_bits B comps width h 0 ++ more) r) (sym height) bits in
      let (lj', r', steps, ready', behind) =
        first_row_lem U lj r (others ++ more) out marker pic ready
          (subst (λ b. IsBefore m rest b r) (append_assoc here others more) bits') in
      let all =
        image_steps-IsImage left 0 lj' r' more values out marker pic (omega (arith, height)) ready'
          behind in
      record {
        lj = all.lj;
        reader = all.reader;
        returns =
            ap (λ z. z >>= image_steps left) steps
            ∙ bind_assoc (extend values out) (λ o. ok (decoding m rest dc T P B lj' r' o))
                (image_steps left)
            ∙ all.returns
            ∙ ap
                (λ h. extend (rows_values P comps dc.pt width h 0) out >>= λ o.
                  ok (decoding m rest dc T P B all.lj all.reader o))
                height;
        behind = all.behind;
      }
