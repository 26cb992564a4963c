-- ===== src/Tiff/Dir/Numbers.antt =====
-- The numbers of every entry of a directory that was read.
use libopenraw.Prelude.{ℕ, ◌≡◌, ◌≢◌, List, [], ◌∷◌, All, Option, Result, ok, err, panic, Safely}
use libopenraw.Container.{unset}
use libopenraw.Io.{
  ByteOrder, big_endian, little_endian, ByteOrderCrate, IsByteOrder, endian_of, View,
}
use libopenraw.Tiff.Entry.{Entry, uint_value_array}
use libopenraw.Tiff.Entry.Arrays.{HasCount, uint_value_array-returns}
use libopenraw.Tiff.Dir.{Dir, read_dir}
use libopenraw.Tiff.Dir.Loaded.{AreReadable, read_dir-AreReadable}

endian_of-set : (o : ByteOrder) → endian_of o ≢ unset
unfolding endian_of
endian_of-set big_endian e = cc
endian_of-set little_endian e = cc

module _ (c : ByteOrderCrate) (laws : IsByteOrder c) (o : ByteOrder) where
  -- `uint_value_array` returns, with none or with as many values as the entry counts.
  abbrev pub HasNumbers : ℕ × Entry → Type 0
  HasNumbers p =
      (r : Option (List ℕ)) × (uint_value_array c p.1 (endian_of o) ≡ ok r) × HasCount p.1.count r

  AreReadable-HasNumbers :
      (entries : List (ℕ × Entry)) → AreReadable entries → All HasNumbers entries
  AreReadable-HasNumbers [] h = tt
  AreReadable-HasNumbers (p ∷ entries) h = (
    uint_value_array-returns c laws p.1 (endian_of o) (endian_of-set o) h.0,
    AreReadable-HasNumbers entries h.1,
  )

  weaken :
      (m : Result Dir)
      → Safely (λ dir. AreReadable dir.entries) m
      → Safely (λ dir. All HasNumbers dir.entries) m
  weaken (ok dir) h = AreReadable-HasNumbers dir.entries h
  weaken (err code) h = h
  weaken panic h = h

  -- With a byte order that does what the crate documents: reading a directory at any offset of any
  -- file does not panic, and neither does `uint_value_array` of any of its entries in that byte
  -- order; the values that it gives are as many as the entry counts.
  pub read_dir-HasNumbers :
      (base_offset : ℕ) (view : View) (dir_offset : ℕ)
      → Safely (λ dir. All HasNumbers dir.entries) (read_dir c o base_offset view dir_offset)
  read_dir-HasNumbers base_offset view dir_offset =
      weaken (read_dir c o base_offset view dir_offset)
        (read_dir-AreReadable c laws o base_offset view dir_offset)
