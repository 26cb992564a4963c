-- ===== src/Io/ByteReader.antt =====
-- A byte order that computes, and does what the byteorder crate documents.
use libopenraw.Prelude.{
  ℕ, ◌+◌, ◌*◌, ◌^◌, ◌<◌, ◌++◌, ◌≤◌, ◌≡◌, refl, ap, List, [], ◌∷◌, length, Result, ok, panic, arith,
}
use libopenraw.Io.{
  ByteOrder, big_endian, little_endian, u16_bytes, u32_bytes, ByteOrderCrate, IsByteOrder,
}

abbrev pub u16_at : ByteOrder → List ℕ → Result ℕ
u16_at big_endian (a ∷ b ∷ rest) = ok (a * 256 + b)
u16_at little_endian (a ∷ b ∷ rest) = ok (b * 256 + a)
u16_at _ _ = panic

abbrev pub u32_at : ByteOrder → List ℕ → Result ℕ
u32_at big_endian (a ∷ b ∷ c ∷ d ∷ rest) = ok (a * 16777216 + b * 65536 + c * 256 + d)
u32_at little_endian (a ∷ b ∷ c ∷ d ∷ rest) = ok (d * 16777216 + c * 65536 + b * 256 + a)
u32_at _ _ = panic

abbrev pub byte_reader : ByteOrderCrate
byte_reader = record { read_u16 = u16_at; read_u32 = u32_at }

u16_at-returns :
    (o : ByteOrder) (bytes : List ℕ) → 2 ≤ length bytes → (x : ℕ) × (u16_at o bytes ≡ ok x)
u16_at-returns o [] h = elim h [ ]
u16_at-returns o (a ∷ []) h = absurd (omega (arith, h))
u16_at-returns big_endian (a ∷ b ∷ rest) h = (a * 256 + b, refl)
u16_at-returns little_endian (a ∷ b ∷ rest) h = (b * 256 + a, refl)

u32_at-returns :
    (o : ByteOrder) (bytes : List ℕ) → 4 ≤ length bytes → (x : ℕ) × (u32_at o bytes ≡ ok x)
u32_at-returns o [] h = elim h [ ]
u32_at-returns o (a ∷ []) h = absurd (omega (arith, h))
u32_at-returns o (a ∷ b ∷ []) h = absurd (omega (arith, h))
u32_at-returns o (a ∷ b ∷ c ∷ []) h = absurd (omega (arith, h))
u32_at-returns big_endian (a ∷ b ∷ c ∷ d ∷ rest) h = (a * 16777216 + b * 65536 + c * 256 + d, refl)
u32_at-returns little_endian (a ∷ b ∷ c ∷ d ∷ rest) h =
    (d * 16777216 + c * 65536 + b * 256 + a, refl)

u16_at-u16_bytes :
    (o : ByteOrder) (x : ℕ) (rest : List ℕ) → x < 2 ^ 16 → u16_at o (u16_bytes o x ++ rest) ≡ ok x
u16_at-u16_bytes big_endian x rest h = ap ok (omega (arith, h))
u16_at-u16_bytes little_endian x rest h = ap ok (omega (arith, h))

u32_at-u32_bytes :
    (o : ByteOrder) (x : ℕ) (rest : List ℕ) → x < 2 ^ 32 → u32_at o (u32_bytes o x ++ rest) ≡ ok x
u32_at-u32_bytes big_endian x rest h = ap ok (omega (arith, h))
u32_at-u32_bytes little_endian x rest h = ap ok (omega (arith, h))

pub byte_reader-IsByteOrder : IsByteOrder byte_reader
byte_reader-IsByteOrder = record {
  reads_u16 = u16_at-u16_bytes;
  reads_u32 = u32_at-u32_bytes;
  returns_u16 = u16_at-returns;
  returns_u32 = u32_at-returns;
}
