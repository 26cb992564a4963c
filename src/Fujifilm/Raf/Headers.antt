-- ===== src/Fujifilm/Raf/Headers.antt =====
-- The header of a RAF file is read back.
use libopenraw.Prelude.{
  ℕ, ◌+◌, ◌^◌, ◌<◌, ◌≡◌, refl, inl, inr, Bool-cases, List, ◌++◌, length, drop, ltb, if◌then◌else◌,
  ok, ge→ltb, arith,
}
use libopenraw.Io.{ByteOrderCrate, IsByteOrder, big_endian, seek, u32_bytes}
use libopenraw.Tiff.Dir.Written.{at, view_read-at, fits_lem, behind, view_u32-at}
use libopenraw.Fujifilm.Raf.{
  raf_magic, RafOffsetDirectory, RafContainer, seek_on, be_u32, read_extra, read_offsets, load_raf,
}

abbrev be : ℕ → List ℕ
be x = u32_bytes big_endian x

-- The four numbers at offset 120, which stand there where the preview starts behind offset 120.
abbrev pub extra_bytes : RafOffsetDirectory → List ℕ → List ℕ
extra_bytes d rest =
    be d.extra_meta_offset
    ++ (be d.extra_meta_len ++ (be d.extra_cfa_offset ++ (be d.extra_cfa_len ++ rest)))

abbrev pub offsets_bytes : RafOffsetDirectory → List ℕ → List ℕ → List ℕ
offsets_bytes d unknown rest =
    be d.jpeg_offset
    ++ (be d.jpeg_len
        ++ (be d.meta_offset
            ++ (be d.meta_len ++ (be d.cfa_offset ++ (be d.cfa_len ++ (unknown ++ rest))))))

pub record AreOffsets (d : RafOffsetDirectory) : Type 0 where
  pub jpeg_offset : d.jpeg_offset < 2 ^ 32
  pub jpeg_len : d.jpeg_len < 2 ^ 32
  pub meta_offset : d.meta_offset < 2 ^ 32
  pub meta_len : d.meta_len < 2 ^ 32
  pub cfa_offset : d.cfa_offset < 2 ^ 32
  pub cfa_len : d.cfa_len < 2 ^ 32
  pub extra_meta_offset : d.extra_meta_offset < 2 ^ 32
  pub extra_meta_len : d.extra_meta_len < 2 ^ 32
  pub extra_cfa_offset : d.extra_cfa_offset < 2 ^ 32
  pub extra_cfa_len : d.extra_cfa_len < 2 ^ 32

-- What a header holds where the preview starts in front of offset 121: no extra offsets.
abbrev pub offsets_of : RafOffsetDirectory → RafOffsetDirectory
offsets_of d = if ltb 120 d.jpeg_offset then d else record d {
  extra_meta_offset = 0;
  extra_meta_len = 0;
  extra_cfa_offset = 0;
  extra_cfa_len = 0;
}

pub record IsRafHeader (h : RafContainer) : Type 0 where
  pub version : length h.version ≡ 4
  pub serial : length h.serial ≡ 8
  pub model : length h.model ≡ 32
  pub fw_version : length h.fw_version ≡ 4
  pub offsets : AreOffsets h.offsets

abbrev pub raf_bytes : RafContainer → List ℕ → List ℕ → List ℕ → List ℕ
raf_bytes h unknown unknown' rest =
    raf_magic
    ++ (h.version
        ++ (h.serial
            ++ (h.model
                ++ (h.fw_version
                    ++ (unknown
                        ++ offsets_bytes h.offsets unknown' (extra_bytes h.offsets rest))))))

module _ (c : ByteOrderCrate) (laws : IsByteOrder c) (bytes : List ℕ) where
  read_extra-extra_bytes :
      (p : ℕ) (d e : RafOffsetDirectory) (rest : List ℕ)
      → AreOffsets d
      → e ≡ record d {
        extra_meta_offset = 0;
        extra_meta_len = 0;
        extra_cfa_offset = 0;
        extra_cfa_len = 0;
      }
      → drop p bytes ≡ extra_bytes d rest
      → read_extra c e (at bytes p) ≡ ok (offsets_of d)
  unfolding read_extra be_u32
  read_extra-extra_bytes p d e rest fits plain there =
      let read = view_u32-at bytes c laws big_endian in
      let (r1, d1) = read p d.extra_meta_offset _ fits.extra_meta_offset there in
      let (r2, d2) = read (p + 4) d.extra_meta_len _ fits.extra_meta_len d1 in
      let (r3, d3) = read (p + 4 + 4) d.extra_cfa_offset _ fits.extra_cfa_offset d2 in
      let (r4, d4) = read (p + 4 + 4 + 4) d.extra_cfa_len rest fits.extra_cfa_len d3 in
      elim (Bool-cases (ltb 120 d.jpeg_offset)) [
        | inl e ↦ rw (plain, e, r1, r2, r3, r4) refl
        | inr e ↦ rw (plain, e) refl
      ]

  read_offsets-offsets_bytes :
      (p : ℕ) (d : RafOffsetDirectory) (unknown rest : List ℕ)
      → AreOffsets d
      → length unknown ≡ 12
      → drop p bytes ≡ offsets_bytes d unknown (extra_bytes d rest)
      → read_offsets c (at bytes p) ≡ ok (offsets_of d)
  unfolding read_offsets be_u32 seek_on
  read_offsets-offsets_bytes p d unknown rest fits twelve there =
      let read = view_u32-at bytes c laws big_endian in
      let (r1, d1) = read p d.jpeg_offset _ fits.jpeg_offset there in
      let (r2, d2) = read (p + 4) d.jpeg_len _ fits.jpeg_len d1 in
      let (r3, d3) = read (p + 4 + 4) d.meta_offset _ fits.meta_offset d2 in
      let (r4, d4) = read (p + 4 + 4 + 4) d.meta_len _ fits.meta_len d3 in
      let (r5, d5) = read (p + 4 + 4 + 4 + 4) d.cfa_offset _ fits.cfa_offset d4 in
      let (r6, d6) = read (p + 4 + 4 + 4 + 4 + 4) d.cfa_len _ fits.cfa_len d5 in
      let q = p + 4 + 4 + 4 + 4 + 4 + 4 in
      let d7 = behind bytes q 12 unknown (extra_bytes d rest) twelve d6 in
      rw (r1, r2, r3, r4, r5, r6) (read_extra-extra_bytes (q + 12) d _ rest fits refl d7)

  -- With a byte order that does what the crate documents: from a file that starts with the magic
  -- bytes, the fields of a header and 32 bytes of unknown meaning in two places, `load` returns the
  -- header, with the extra offsets where the preview starts behind offset 120, and with 0 for each of
  -- them where it does not.
  pub load_raf-raf_bytes :
      (p : ℕ) (h : RafContainer) (unknown unknown' rest : List ℕ)
      → IsRafHeader h
      → length unknown ≡ 20
      → length unknown' ≡ 12
      → bytes ≡ raf_bytes h unknown unknown' rest
      → load_raf c (at bytes p) ≡ ok (record h { offsets = offsets_of h.offsets })
  unfolding load_raf seek seek_on
  load_raf-raf_bytes p h unknown unknown' rest is twenty twelve there =
      let t5 : List ℕ = unknown ++ offsets_bytes h.offsets unknown' (extra_bytes h.offsets rest) in
      let t4 : List ℕ = h.fw_version ++ t5 in
      let t3 : List ℕ = h.model ++ t4 in
      let t2 : List ℕ = h.serial ++ t3 in
      let t1 : List ℕ = h.version ++ t2 in
      let d1 = behind bytes 0 16 raf_magic t1 refl there in
      let d2 = behind bytes 16 4 h.version t2 is.version d1 in
      let d3 = behind bytes 20 8 h.serial t3 is.serial d2 in
      let d4 = behind bytes 28 32 h.model t4 is.model d3 in
      let d5 = behind bytes 60 4 h.fw_version t5 is.fw_version d4 in
      let d6 = behind bytes 64 20 unknown _ twenty d5 in
      let f0 = fits_lem bytes 0 16 raf_magic t1 (omega arith) refl there in
      let f1 = fits_lem bytes 16 4 h.version t2 (omega arith) is.version d1 in
      let f2 = fits_lem bytes 20 8 h.serial t3 (omega arith) is.serial d2 in
      let f3 = fits_lem bytes 28 32 h.model t4 (omega arith) is.model d3 in
      let f4 = fits_lem bytes 60 4 h.fw_version t5 (omega arith) is.fw_version d4 in
      rw
        (
          ge→ltb (length bytes) 0 (omega arith),
          view_read-at bytes 0 16 raf_magic t1 refl f0 there,
          view_read-at bytes 16 4 h.version t2 is.version f1 d1,
          view_read-at bytes 20 8 h.serial t3 is.serial f2 d2,
          view_read-at bytes 28 32 h.model t4 is.model f3 d3,
          view_read-at bytes 60 4 h.fw_version t5 is.fw_version f4 d4,
          read_offsets-offsets_bytes 84 h.offsets unknown' rest is.offsets twelve d6,
        )
        refl
