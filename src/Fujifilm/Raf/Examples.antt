-- ===== src/Fujifilm/Raf/Examples.antt =====
-- A container of four values and a header of 136 bytes, and the theorems at them.
use libopenraw.Prelude.{ℕ, ◌≡◌, refl, List, [], ◌∷◌, ◌++◌, replicate, none, ok, arith}
use libopenraw.Io.{big_endian, u32_bytes}
use libopenraw.Io.ByteReader.{byte_reader, byte_reader-IsByteOrder}
use libopenraw.Tiff.Dir.Written.{at}
use libopenraw.Fujifilm.Raf.{
  Value, int_value, bytes_value, u32s_value, get_tag, load_meta, RafContainer, load_raf, halves_of,
}
use libopenraw.Fujifilm.Raf.Tags.{tagged_bytes, last_value, load_meta-tagged_bytes}
use libopenraw.Fujifilm.Raf.Headers.{raf_bytes, offsets_of, load_raf-raf_bytes}

-- The height and the width of a sensor, a pattern, data of the camera, and the first tag again.
abbrev values : List (ℕ × Value)
values =
    (0x100, int_value 0x01000001)
    ∷ (0x131, bytes_value (1 ∷ 2 ∷ 0 ∷ []))
    ∷ (0xc000, u32s_value (7 ∷ 70000 ∷ []))
    ∷ (0x100, int_value 0x02000003)
    ∷ []

abbrev container : List ℕ
container = u32_bytes big_endian 4 ++ (tagged_bytes values ++ (0xff ∷ []))

-- The low half is the width.
size_halves : halves_of (int_value 0x01000001) ≡ ok (1, 256)
unfolding halves_of
size_halves = refl

load_meta-tagged_bytes_example :
    (tags : List (ℕ × Value)) × (load_meta byte_reader (at container 0) ≡ ok tags)
    × ((tag : ℕ) → get_tag tag tags ≡ last_value tag values none)
load_meta-tagged_bytes_example =
    load_meta-tagged_bytes byte_reader byte_reader-IsByteOrder container values 0 (0xff ∷ [])
      (
        (omega arith, omega arith),
        (
          (omega arith, (λ e. omega (arith, e), omega arith, omega arith, λ e. omega (arith, e))),
          (
            (
              omega arith,
              (
                λ e. omega (arith, e),
                omega arith,
                omega arith,
                refl,
                (omega arith, (omega arith, tt)),
              ),
            ),
            ((omega arith, omega arith), tt),
          ),
        ),
      )
      (omega arith) refl

abbrev header : RafContainer
header = record {
  version = 0x30 ∷ 0x32 ∷ 0x30 ∷ 0x31 ∷ [];
  serial = replicate 8 0x46;
  model = 0x58 ∷ 0x2d ∷ 0x45 ∷ 0x31 ∷ replicate 28 0;
  fw_version = 0x30 ∷ 0x31 ∷ 0x30 ∷ 0x30 ∷ [];
  offsets = record {
    jpeg_offset = 148;
    jpeg_len = 1000000;
    meta_offset = 1000148;
    meta_len = 4096;
    cfa_offset = 1004244;
    cfa_len = 30000000;
    extra_meta_offset = 7;
    extra_meta_len = 8;
    extra_cfa_offset = 9;
    extra_cfa_len = 10;
  };
}

abbrev header_file : List ℕ
header_file = raf_bytes header (replicate 20 0) (replicate 12 0) []

load_raf-raf_bytes_example :
    load_raf byte_reader (at header_file 3)
    ≡ ok (record header { offsets = offsets_of header.offsets })
load_raf-raf_bytes_example =
    load_raf-raf_bytes byte_reader byte_reader-IsByteOrder header_file 3 header (replicate 20 0)
      (replicate 12 0) []
      (record {
        version = refl;
        serial = refl;
        model = refl;
        fw_version = refl;
        offsets = record {
          jpeg_offset = omega arith;
          jpeg_len = omega arith;
          meta_offset = omega arith;
          meta_len = omega arith;
          cfa_offset = omega arith;
          cfa_len = omega arith;
          extra_meta_offset = omega arith;
          extra_meta_len = omega arith;
          extra_cfa_offset = omega arith;
          extra_cfa_len = omega arith;
        };
      })
      refl refl refl
