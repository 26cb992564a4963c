-- ===== src/Bitmap.antt =====
-- src/bitmap.rs: the image buffer of the rendering pipeline. Coordinates are `u32`, whose arithmetic
-- panics when it overflows; `usize` has 64 bits. The trait `Bitmap` and the conversion from floating
-- point are left out.
pub mod Pixels
mod Examples
use libopenraw.Prelude.{
  ℕ, ◌+◌, ◌*◌, ◌^◌, Bool, ◌||◌, Option, none, some, List, length, replicate, take, drop, leb, ltb,
  if◌then◌else◌, Result, ok, panic, ◌>>=◌, ◌>>◌, require, update,
}

pub record ImageBuffer (T : Type 0) : Type 0 where
  pub data_of : List T
  pub width : ℕ
  pub height : ℕ
  pub bpc : ℕ
  pub cc : ℕ

-- A `u32`.
unfoldable pub u32 : ℕ → Result ℕ
u32 n = if ltb n (2 ^ 32) then ok n else panic

module _ {T : Type 0} where
  -- `ImageBuffer::new`; `default` is `T::default()`.
  unfoldable pub new_image : T → ℕ → ℕ → ℕ → ℕ → ImageBuffer T
  new_image default width height bpc cc = record {
    data_of = replicate (width * height) default;
    width = width;
    height = height;
    bpc = bpc;
    cc = cc;
  }

  unfoldable pub with_data : List T → ℕ → ℕ → ℕ → ℕ → ImageBuffer T
  with_data xs width height bpc cc = record {
    data_of = xs;
    width = width;
    height = height;
    bpc = bpc;
    cc = cc;
  }

  -- The position of a pixel.
  unfoldable pub offset_of : ImageBuffer T → ℕ → ℕ → Result ℕ
  offset_of img x y = do
    a ← u32 (y * img.width)
    b ← u32 (a * img.cc)
    c ← u32 (x * img.cc)
    u32 (b + c)

  unfoldable pub pixel_at : ImageBuffer T → ℕ → ℕ → Result (Option (List T))
  pixel_at img x y = if ltb img.width x || ltb img.height y then ok none else (do
    pos ← offset_of img x y
    require (leb (pos + img.cc) (length img.data_of))
    ok (some (take img.cc (drop pos img.data_of))))

  -- `*mut_pixel_at(row, col, c) = v`
  unfoldable pub set_pixel_at : ImageBuffer T → ℕ → ℕ → ℕ → T → Result (ImageBuffer T)
  set_pixel_at img row col c v = do
    xs ← update img.data_of (row * img.width * img.cc + col * img.cc + c) v
    ok (record img { data_of = xs })
