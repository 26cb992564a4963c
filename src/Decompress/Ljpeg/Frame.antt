-- ===== src/Decompress/Ljpeg/Frame.antt =====
-- What a frame header leaves behind.
use libopenraw.Prelude.{
  ℕ, zero, suc, ◌+◌, ◌-◌, ◌*◌, ◌≤◌, ◌≡◌, ◌∙◌, false, not, ◌||◌, List, ◌==◌, ltb, length, take,
  replicate, length-append, length-take, length-replicate, Result, reject_if, index, update, After,
  After-bind, After-any, After-update, After-reject_if, jpeg_format, arith, bit_and, shr,
}
use libopenraw.Decompress.BitReader.{LJpegBitReader, read_u8, read_u16}
use libopenraw.Decompress.Ljpeg.Info.{
  DecompressInfo, Parsed, resize, default_component, read_components, get_sof,
}

-- A frame with something in it, as the decoder relies on.
pub record IsFrame (dc : DecompressInfo) : Type 0 where
  pub wide : 1 ≤ dc.image_width
  pub tall : 1 ≤ dc.image_height
  pub coloured : 1 ≤ dc.num_components
  pub precise : 2 ≤ dc.data_precision
  pub fits : dc.data_precision ≤ 16
  pub described : length dc.comp_info ≡ dc.num_components

length-resize : {A : Type 0} (n : ℕ) (a : A) (xs : List A) → length (resize n a xs) ≡ n
length-resize n a xs =
    length-append (take n xs) (replicate (n - length xs) a)
    ∙ ground (arith, length-take n xs, length-replicate (n - length xs) a)

read_components-IsFrame :
    (left ci : ℕ) (dc : DecompressInfo) (r : LJpegBitReader)
    → IsFrame dc
    → After (λ p. IsFrame p.0) (read_components left ci (dc, r))
unfolding read_components
read_components-IsFrame zero ci dc r h = h
read_components-IsFrame (suc left) ci dc r h =
    After-bind _ _ (index dc.comp_info ci) _ (After-any _) (λ comp t.
      After-bind _ _ (read_u8 r) _ (After-any _) (λ id t.
        After-bind _ _ (read_u8 id.1) _ (After-any _) (λ c t.
          After-bind _ _ (read_u8 c.1) _ (After-any _) (λ tq t.
            After-bind _ _
              (update dc.comp_info ci (record comp {
                component_index = ci;
                component_id = id.0;
                h_samp_factor = bit_and (shr c.0 4) 15;
                v_samp_factor = bit_and c.0 15;
              }))
              _ (After-update dc.comp_info ci _)
              (λ infos e.
                read_components-IsFrame left (ci + 1) (record dc { comp_info = infos }) tq.1
                  (record {
                    wide = h.wide;
                    tall = h.tall;
                    coloured = h.coloured;
                    precise = h.precise;
                    fits = h.fits;
                    described = e ∙ h.described;
                  }))))))

none_zero : (a b c : ℕ) → ((a == 0) || (b == 0) || (c == 0)) ≡ false → (1 ≤ a) × (1 ≤ b) × (1 ≤ c)
none_zero a b c e = ground arith

in_range : (p : ℕ) → (ltb p 2 || ltb 16 p) ≡ false → (2 ≤ p) × (p ≤ 16)
in_range p e = ground arith

-- Whatever the bytes and the state before, where `get_sof` returns, the frame has at least one
-- column, row and component, its samples have 2 to 16 bits, and there is a description for each
-- component.
pub get_sof-IsFrame :
    (be_u16 : List ℕ → Result ℕ) (p : Parsed) → After (λ q. IsFrame q.0) (get_sof be_u16 p)
unfolding get_sof
get_sof-IsFrame be_u16 (dc, r) = After-bind _ _ (read_u16 be_u16 r) _ (After-any _) (λ len t.
    After-bind _ _ (read_u8 len.1) _ (After-any _) (λ precision t.
      After-bind _ _ (read_u16 be_u16 precision.1) _ (After-any _) (λ height t.
        After-bind _ _ (read_u16 be_u16 height.1) _ (After-any _) (λ width t.
          After-bind _ _ (read_u8 width.1) _ (After-any _) (λ comps t.
            After-bind _ _
              (reject_if ((height.0 == 0) || (width.0 == 0) || (comps.0 == 0)) jpeg_format) _
              (After-reject_if _ jpeg_format)
              (λ u sizes.
                After-bind _ _ (reject_if (ltb precision.0 2 || ltb 16 precision.0) jpeg_format) _
                  (After-reject_if _ jpeg_format)
                  (λ u' range.
                    After-bind _ _ (reject_if (not (len.0 == comps.0 * 3 + 8)) jpeg_format) _
                      (After-any _)
                      (λ u'' t.
                        let some_size = none_zero height.0 width.0 comps.0 sizes in
                        let bits = in_range precision.0 range in
                        read_components-IsFrame comps.0 0 _ comps.1 (record {
                          wide = some_size.1;
                          tall = some_size.0;
                          coloured = some_size.2;
                          precise = bits.0;
                          fits = bits.1;
                          described = length-resize comps.0 default_component dc.comp_info;
                        })))))))))
