-- ===== src/BitSource.antt =====
-- The bitreader crate, as the decompressors use it: an interface, and what its documentation says of
-- it. The most significant bit of a byte comes first.
pub mod ListReader
pub mod Fields
use libopenraw.Prelude.{
  ℕ, zero, suc, ◌+◌, ◌-◌, ◌*◌, ◌/◌, ◌%◌, ◌≤◌, ◌<◌, ◌≡◌, Bool, true, false, List, [], ◌∷◌, ◌++◌,
  ◌==◌, leb, if◌then◌else◌, length, take, drop, Result, ok, err, bit_reader_error, not,
}

-- A reader over a slice. `read w n` is `read_u8`, `read_u16` or `read_u32` of `n` bits by the width `w`
-- of the type, and `peek` the same with nothing consumed.
pub record BitReaderCrate : Type 1 where
  pub State : Type 0
  pub new : List ℕ → State
  pub read : ℕ → ℕ → State → Result (ℕ × State)
  pub peek : ℕ → ℕ → State → Result ℕ
  pub skip : ℕ → State → Result State
  pub remaining : State → ℕ

-- The number that some bits are, the first bit highest.
abbrev pub value_from : ℕ → List Bool → ℕ
value_from acc [] = acc
value_from acc (b ∷ bs) = value_from (acc * 2 + (if b then 1 else 0)) bs

abbrev pub value_of : List Bool → ℕ
value_of bs = value_from 0 bs

-- The `n` low bits of a number, the highest first.
abbrev pub low_bits : ℕ → ℕ → List Bool
low_bits zero x = []
low_bits (suc n) x = low_bits n (x / 2) ++ (not (x % 2 == 0)) ∷ []

abbrev pub bytes_bits : List ℕ → List Bool
bytes_bits [] = []
bytes_bits (b ∷ bs) = low_bits 8 b ++ bytes_bits bs

-- A zero goes behind every 0xff.
abbrev pub stuff : List ℕ → List ℕ
stuff [] = []
stuff (b ∷ bs) = if b == 0xff then 0xff ∷ 0 ∷ stuff bs else b ∷ stuff bs

-- What the crate documents: a reader stands in a sequence of bits; as many bits as the type holds
-- can be read where they are left, and an error is returned otherwise.
pub record IsBitReader (c : BitReaderCrate) : Type 1 where
  pub bits : c.State → List Bool
  pub of_new : (bytes : List ℕ) → bits (c.new bytes) ≡ bytes_bits bytes
  pub reads :
      (w n : ℕ) (s : c.State)
      → n ≤ w
      → n ≤ length (bits s)
      → (s' : c.State) × (c.read w n s ≡ ok (value_of (take n (bits s)), s'))
        × (bits s' ≡ drop n (bits s))
  pub ends : (w n : ℕ) (s : c.State) → length (bits s) < n → c.read w n s ≡ err bit_reader_error
  pub peeks :
      (w n : ℕ) (s : c.State)
      → n ≤ w
      → n ≤ length (bits s)
      → c.peek w n s ≡ ok (value_of (take n (bits s)))
  pub peek_ends :
      (w n : ℕ) (s : c.State) → length (bits s) < n → c.peek w n s ≡ err bit_reader_error
  pub skips :
      (n : ℕ) (s : c.State)
      → n ≤ length (bits s)
      → (s' : c.State) × (c.skip n s ≡ ok s') × (bits s' ≡ drop n (bits s))
  pub counts : (s : c.State) → c.remaining s ≡ length (bits s)

-- A reader that is its bits.
abbrev pub list_reader : BitReaderCrate
list_reader = record {
  State = List Bool;
  new = bytes_bits;
  read = λ w n s.
      if leb n w
      then (if leb n (length s) then ok (value_of (take n s), drop n s) else err bit_reader_error)
      else err bit_reader_error;
  peek = λ w n s.
      if leb n w
      then (if leb n (length s) then ok (value_of (take n s)) else err bit_reader_error)
      else err bit_reader_error;
  skip = λ n s. if leb n (length s) then ok (drop n s) else err bit_reader_error;
  remaining = λ s. length s;
}
