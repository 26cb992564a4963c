-- ===== src/Thumbnail.antt =====
-- src/container.rs: the data of a thumbnail that is described by an offset and a length.
pub mod Loaded
mod Examples
use libopenraw.Prelude.{
  ℕ, ◌+◌, ◌-◌, ◌^◌, List, leb, ltb, if◌then◌else◌, length, Result, ok, ◌>>=◌, ◌>>◌, require,
}
use libopenraw.Io.{View, seek, view_read}

-- The length, cut at the end of the view; the sum and the difference are `u64`.
unfoldable pub readjusted : ℕ → ℕ → View → Result ℕ
readjusted offset len view = do
  require (ltb (offset + len) (2 ^ 64))
  (if ltb (length view.bytes) (offset + len)
      then (do require (leb offset (length view.bytes)); ok (length view.bytes - offset))
      else ok len)

-- `RawContainer::make_thumbnail` of a `Data::Offset`: the bytes of the thumbnail.
unfoldable pub make_thumbnail : ℕ → ℕ → View → Result (List ℕ)
make_thumbnail offset len view = do
  len' ← readjusted offset len view
  view' ← seek offset view
  (bytes, view'') ← view_read len' view'
  ok bytes
