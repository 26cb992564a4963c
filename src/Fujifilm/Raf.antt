-- ===== src/Fujifilm/Raf.antt =====
-- src/fujifilm/raf.rs: the header of a RAF file and its metadata container. The model name is kept as
-- its bytes.
pub mod Tags
pub mod Headers
mod Examples
use libopenraw.Prelude.{
  ℕ, zero, suc, ◌+◌, ◌*◌, ◌/◌, ◌&&◌, Bool, true, false, Option, none, some, List, [], ◌∷◌, ◌==◌,
  ltb, if◌then◌else◌, length, Result, ok, err, format_error, invalid_format, ◌>>=◌, ◌>>◌, reject_if,
  not, bit_and, shr,
}
use libopenraw.Io.{
  ByteOrderCrate, big_endian, little_endian, View, seek, view_read, view_u16, view_u32,
}
use libopenraw.Tiff.Dir.{insert}
use libopenraw.Tiff.Entry.{read_units}

pub data Value : Type 0 where
  int_value : ℕ → Value
  bytes_value : List ℕ → Value
  u32s_value : List ℕ → Value

abbrev pub tag_raf_data : ℕ
tag_raf_data = 0xc000

-- `tags.get(&tag)`
unfoldable pub get_tag : ℕ → List (ℕ × Value) → Option Value
get_tag tag [] = none
get_tag tag (p ∷ ps) = if p.0 == tag then some p.1 else get_tag tag ps

-- `Point::try_from`, `Size::try_from` and `AspectRatio::try_from`: the low half and the high half.
unfoldable pub halves_of : Value → Result (ℕ × ℕ)
halves_of (int_value n) = ok (bit_and n 0x0000ffff, shr (bit_and n 0xffff0000) 16)
halves_of (bytes_value bytes) = err invalid_format
halves_of (u32s_value values) = err invalid_format

-- `u32::try_from`
unfoldable pub u32_of : Value → Result ℕ
u32_of (int_value n) = ok n
u32_of (bytes_value bytes) = err invalid_format
u32_of (u32s_value values) = err invalid_format

-- The first 16 bytes of a file, FUJIFILMCCD-RAW and a space.
abbrev pub raf_magic : List ℕ
raf_magic =
    0x46 ∷ 0x55 ∷ 0x4a ∷ 0x49 ∷ 0x46 ∷ 0x49 ∷ 0x4c ∷ 0x4d ∷ 0x43 ∷ 0x43 ∷ 0x44 ∷ 0x2d ∷ 0x52 ∷ 0x41
    ∷ 0x57 ∷ 0x20 ∷ []

abbrev pub same_bytes : List ℕ → List ℕ → Bool
same_bytes [] [] = true
same_bytes [] (y ∷ ys) = false
same_bytes (x ∷ xs) [] = false
same_bytes (x ∷ xs) (y ∷ ys) = (x == y) && same_bytes xs ys

pub record RafOffsetDirectory : Type 0 where
  pub jpeg_offset : ℕ
  pub jpeg_len : ℕ
  pub meta_offset : ℕ
  pub meta_len : ℕ
  pub cfa_offset : ℕ
  pub cfa_len : ℕ
  pub extra_meta_offset : ℕ
  pub extra_meta_len : ℕ
  pub extra_cfa_offset : ℕ
  pub extra_cfa_len : ℕ

pub record RafContainer : Type 0 where
  pub version : List ℕ
  pub serial : List ℕ
  pub model : List ℕ
  pub fw_version : List ℕ
  pub offsets : RafOffsetDirectory

-- `seek` from the current position: it is not held against the length.
unfoldable pub seek_on : ℕ → View → View
seek_on n view = record view { pos = view.pos + n }

module _ (c : ByteOrderCrate) where
  unfoldable pub be_u32 : View → Result (ℕ × View)
  be_u32 view = view_u32 c big_endian view

  -- `read_u32_into` of the byteorder crate: the bytes, and a number from each four of them.
  unfoldable pub read_u32_into : ℕ → View → Result (List ℕ × View)
  read_u32_into n view = do
    (bytes, view') ← view_read (4 * n) view
    values ← read_units (c.read_u32 little_endian) 4 bytes n 0
    ok (values, view')

  unfoldable pub read_tag_value : ℕ → ℕ → View → Result (Value × View)
  read_tag_value tag sz view =
      if sz == 4
      then (do (v, view') ← be_u32 view; ok (int_value v, view'))
      else (if tag == tag_raf_data
          then (do (vs, view') ← read_u32_into sz view; ok (u32s_value vs, view'))
          else (do (bytes, view') ← view_read sz view; ok (bytes_value bytes, view')))

  unfoldable pub read_tags : ℕ → List (ℕ × Value) → View → Result (List (ℕ × Value))
  read_tags zero tags view = ok tags
  read_tags (suc left) tags view = do
    (tag, v1) ← view_u16 c big_endian view
    (sz, v2) ← view_u16 c big_endian v1
    (value, v3) ← read_tag_value tag sz v2
    read_tags left (insert tag value tags) v3

  -- `MetaContainer::load`
  unfoldable pub load_meta : View → Result (List (ℕ × Value))
  load_meta view = do (count, v1) ← be_u32 view; read_tags count [] v1

  -- The four numbers that stand in front of a preview that starts behind them.
  unfoldable pub read_extra : RafOffsetDirectory → View → Result RafOffsetDirectory
  read_extra offsets view =
      if ltb 120 offsets.jpeg_offset
      then (do
        (extra_meta_offset, v1) ← be_u32 view
        (extra_meta_len, v2) ← be_u32 v1
        (extra_cfa_offset, v3) ← be_u32 v2
        (extra_cfa_len, v4) ← be_u32 v3
        ok (record offsets {
          extra_meta_offset = extra_meta_offset;
          extra_meta_len = extra_meta_len;
          extra_cfa_offset = extra_cfa_offset;
          extra_cfa_len = extra_cfa_len;
        }))
      else ok offsets

  unfoldable pub read_offsets : View → Result RafOffsetDirectory
  read_offsets view = do
    (jpeg_offset, v1) ← be_u32 view
    (jpeg_len, v2) ← be_u32 v1
    (meta_offset, v3) ← be_u32 v2
    (meta_len, v4) ← be_u32 v3
    (cfa_offset, v5) ← be_u32 v4
    (cfa_len, v6) ← be_u32 v5
    read_extra
        (record {
          jpeg_offset = jpeg_offset;
          jpeg_len = jpeg_len;
          meta_offset = meta_offset;
          meta_len = meta_len;
          cfa_offset = cfa_offset;
          cfa_len = cfa_len;
          extra_meta_offset = 0;
          extra_meta_len = 0;
          extra_cfa_offset = 0;
          extra_cfa_len = 0;
        })
        (seek_on 12 v6)

  -- `RafContainer::load`
  unfoldable pub load_raf : View → Result RafContainer
  load_raf view = do
    v0 ← seek 0 view
    (magic, v1) ← view_read 16 v0
    reject_if (not (same_bytes magic raf_magic)) format_error
    (version, v2) ← view_read 4 v1
    (serial, v3) ← view_read 8 v2
    (model, v4) ← view_read 32 v3
    (fw_version, v5) ← view_read 4 v4
    offsets ← read_offsets (seek_on 20 v5)
    ok (record {
      version = version;
      serial = serial;
      model = model;
      fw_version = fw_version;
      offsets = offsets;
    })
