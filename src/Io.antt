-- ===== src/Io.antt =====
-- src/io.rs: a view of a file, as its bytes from the offset of the view on and the position; and the
-- byteorder crate that reads numbers, as an interface with what it documents.
pub mod ByteReader
use libopenraw.Prelude.{
  ℕ, ◌+◌, ◌*◌, ◌/◌, ◌%◌, ◌^◌, ◌≤◌, ◌<◌, ◌≡◌, List, [], ◌∷◌, ◌++◌, leb, ltb, if◌then◌else◌, length,
  take, drop, Result, ok, err, panic, io_error, ◌>>=◌, ◌>>◌, reject_if,
}
use libopenraw.Container.{Endian, big, little}

pub data ByteOrder : Type 0 where
  big_endian little_endian : ByteOrder

-- `EndianType::ENDIAN` of src/container.rs
unfoldable pub endian_of : ByteOrder → Endian
endian_of big_endian = big
endian_of little_endian = little

-- The numbers at the start of a slice; a shorter slice panics.
pub record ByteOrderCrate : Type 0 where
  pub read_u16 : ByteOrder → List ℕ → Result ℕ
  pub read_u32 : ByteOrder → List ℕ → Result ℕ

abbrev pub u16_bytes : ByteOrder → ℕ → List ℕ
u16_bytes big_endian x = x / 256 ∷ x % 256 ∷ []
u16_bytes little_endian x = x % 256 ∷ x / 256 ∷ []

abbrev pub u32_bytes : ByteOrder → ℕ → List ℕ
u32_bytes big_endian x = x / 16777216 ∷ x / 65536 % 256 ∷ x / 256 % 256 ∷ x % 256 ∷ []
u32_bytes little_endian x = x % 256 ∷ x / 256 % 256 ∷ x / 65536 % 256 ∷ x / 16777216 ∷ []

pub record IsByteOrder (c : ByteOrderCrate) : Type 0 where
  pub reads_u16 :
      (o : ByteOrder) (x : ℕ) (rest : List ℕ)
      → x < 2 ^ 16
      → c.read_u16 o (u16_bytes o x ++ rest) ≡ ok x
  pub reads_u32 :
      (o : ByteOrder) (x : ℕ) (rest : List ℕ)
      → x < 2 ^ 32
      → c.read_u32 o (u32_bytes o x ++ rest) ≡ ok x
  pub returns_u16 :
      (o : ByteOrder) (bytes : List ℕ) → 2 ≤ length bytes → (x : ℕ) × (c.read_u16 o bytes ≡ ok x)
  pub returns_u32 :
      (o : ByteOrder) (bytes : List ℕ) → 4 ≤ length bytes → (x : ℕ) × (c.read_u32 o bytes ≡ ok x)

pub record View : Type 0 where
  pub bytes : List ℕ
  pub pos : ℕ

-- `View::seek` from the start
unfoldable pub seek : ℕ → View → Result View
seek p view = do reject_if (ltb (length view.bytes) p) io_error; ok (record view { pos = p })

-- `read_exact` of std over `View::read`
unfoldable pub view_read : ℕ → View → Result (List ℕ × View)
view_read n view =
    if leb (view.pos + n) (length view.bytes)
    then ok (take n (drop view.pos view.bytes), record view { pos = view.pos + n })
    else err io_error

module _ (c : ByteOrderCrate) (o : ByteOrder) where
  unfoldable pub view_u16 : View → Result (ℕ × View)
  view_u16 view = do (bytes, view') ← view_read 2 view; x ← c.read_u16 o bytes; ok (x, view')

  unfoldable pub view_u32 : View → Result (ℕ × View)
  view_u32 view = do (bytes, view') ← view_read 4 view; x ← c.read_u32 o bytes; ok (x, view')
