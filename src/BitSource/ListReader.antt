-- ===== src/BitSource/ListReader.antt =====
-- The reader that is its bits does what the bitreader crate documents.
use libopenraw.Prelude.{
  ◌≡◌, refl, length, drop, leb, le→leb, gt→leb, if◌then◌else◌, err, bit_reader_error, Bool, true,
  false,
}
use libopenraw.BitSource.{IsBitReader, list_reader}

abbrev pub either : {A : Type 0} (b : Bool) (r : A) → (if b then r else r) ≡ r
either true r = refl
either false r = refl

abbrev pub list_reader-IsBitReader : IsBitReader list_reader
list_reader-IsBitReader = record {
  bits = λ s. s;
  of_new = λ bytes. refl;
  reads = λ w n s h k. (drop n s, rw (le→leb n w h, le→leb n (length s) k) refl, refl);
  ends = λ w n s h. rw (gt→leb n (length s) h) (either (leb n w) (err bit_reader_error));
  peeks = λ w n s h k. rw (le→leb n w h, le→leb n (length s) k) refl;
  peek_ends = λ w n s h. rw (gt→leb n (length s) h) (either (leb n w) (err bit_reader_error));
  skips = λ n s k. (drop n s, rw (le→leb n (length s) k) refl, refl);
  counts = λ s. refl;
}
