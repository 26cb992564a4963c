-- ===== src/Canon/Crw/Picture.antt =====
-- A picture is read back from its blocks.
use libopenraw.Prelude.{
  ℕ, zero, suc, ◌+◌, ◌*◌, ◌/◌, ◌^◌, ◌≤◌, ◌<◌, ◌≡◌, refl, sym, ap, ◌∙◌, subst, Bool, false, List, [],
  ◌∷◌, ◌++◌, append_assoc, append-nil, length, length-append, All, replicate, take, drop,
  drop-length, Result, ok, panic, lt→ltb, ge→ltb, le→leb, ℤ, pos, arith,
}
use libopenraw.BitSource.{bytes_bits, stuff}
use libopenraw.Io.{View, seek, view_read}
use libopenraw.Canon.Crw.{scan, canon_has_lowbits, Blocks, read_block, read_blocks, decompress_crw}
use libopenraw.Canon.Crw.Pump.{empty_pump}
use libopenraw.Canon.Crw.Pump.Stuffed.{IsAt}
use libopenraw.Canon.Crw.Pump.Bits.{IsBefore, get_bits-start}
use libopenraw.Canon.Crw.Tokens.{Decompress, read_tokens}
use libopenraw.Canon.Crw.Tokens.Coded.{Codes}
use libopenraw.Canon.Crw.Tokens.Blocks.{read_tokens-Codes}
use libopenraw.Canon.Crw.Sums.{crw_u32, add_lowbits}
use libopenraw.Canon.Crw.Sums.Deltas.{
  deltas, length-deltas, last_two, last_two-small, bases, add_up-deltas, less_carry, carry_of,
  add_carry-deltas,
}

-- The bits that code blocks of samples, from a column on: `p` and `q` are the two samples before it,
-- and `carry` the first difference of the block before.
pub data Encodes (d : Decompress) : ℕ → ℕ → ℕ → ℤ → List (List ℕ) → List Bool → Type 0 where
  finished : {column p q : ℕ} {carry : ℤ} → Encodes d column p q carry [] []
  block :
      {column p q : ℕ} {carry : ℤ} {xs : List ℕ} {blocks : List (List ℕ)}
      {bits others all : List Bool}
      → length xs ≡ 64
      → All (λ x. x < 2 ^ 16) xs
      → Codes d 0 (less_carry carry (deltas d.width column p q xs)) bits
      → Encodes d
          (column + 64)
          (last_two d.width column p q xs).0
          (last_two d.width column p q xs).1
          (carry_of d.width column p xs)
          blocks
          others
      → all ≡ bits ++ others
      → Encodes d column p q carry (xs ∷ blocks) all

abbrev pub samples : List (List ℕ) → List ℕ
samples [] = []
samples (xs ∷ blocks) = xs ++ samples blocks

-- The loop stands at `column`, behind the pixels `done`, before `bits`.
record IsAtBlock (tail bytes : List ℕ) (column p q : ℕ) (carry : ℤ) (done : List ℕ)
    (bits : List Bool) (s : Blocks) : Type 0 where
  at_column : s.column ≡ column
  sums : s.base ≡ bases 0 p q
  carried : s.carry ≡ carry
  written : s.pixels ≡ done
  before : IsBefore tail bytes bits (s.pump, s.view)

record HasBlock (tail bytes : List ℕ) (column p q : ℕ) (carry : ℤ) (done : List ℕ)
    (bits : List Bool) (m : Result Blocks) : Type 0 where
  after : Blocks
  returns : m ≡ ok after
  at : IsAtBlock tail bytes column p q carry done bits after

length-less_carry : (carry : ℤ) (xs : List ℤ) → length (less_carry carry xs) ≡ length xs
length-less_carry carry [] = refl
length-less_carry carry (x ∷ xs) = refl

module _ (d : Decompress) (tail bytes : List ℕ) where
  read_block-HasBlock :
      (column p q : ℕ) (carry : ℤ) (done xs : List ℕ) (bits rest : List Bool) (s : Blocks)
      → length xs ≡ 64
      → All (λ x. x < 2 ^ 16) xs
      → p < 2 ^ 16
      → column + 64 < 2 ^ 32
      → 32 ≤ length rest
      → Codes d 0 (less_carry carry (deltas d.width column p q xs)) bits
      → IsAtBlock tail bytes column p q carry done (bits ++ rest) s
      → HasBlock tail bytes
          (column + 64)
          (last_two d.width column p q xs).0
          (last_two d.width column p q xs).1
          (carry_of d.width column p xs)
          (done ++ xs)
          rest
          (read_block d false s)
  unfolding read_block add_lowbits
  read_block-HasBlock column p q carry done xs bits rest s full small low room more codes at =
      let ds = less_carry carry (deltas d.width column p q xs) in
      let count : length ds ≡ 64 =
        length-less_carry carry (deltas d.width column p q xs)
        ∙ length-deltas d.width column p q xs
        ∙ full in
      let t =
        read_tokens-Codes d tail bytes 64 [] (s.pump, s.view) rest codes refl (omega (arith, count))
          (omega arith) more at.before in
      let returns : read_tokens d 64 0 (replicate 64 (pos 0)) (s.pump, s.view) ≡ ok (ds, t.after) =
        ap (λ n. read_tokens d 64 0 (replicate n (pos 0)) (s.pump, s.view)) (sym count)
        ∙ t.returns in
      let sums = add_up-deltas d.width 0 column p q xs small (omega (arith, room, full)) in
      rw
        (
          returns,
          at.carried,
          add_carry-deltas d.width column p q xs carry (omega (arith, full)) small low,
          at.at_column,
          at.sums,
          sums,
          at.written,
          full,
        )
        (record {
          after = record {
            column = column + 64;
            base = bases 0 (last_two d.width column p q xs).0 (last_two d.width column p q xs).1;
            carry = carry_of d.width column p xs;
            pixels = done ++ xs;
            pump = t.after.0;
            view = t.after.1;
          };
          returns = refl;
          at = record {
            at_column = refl;
            sums = refl;
            carried = refl;
            written = refl;
            before = t.before;
          };
        })

  read_blocks-Encodes :
      (late : Result (List ℕ)) (left total : ℕ) {column p q : ℕ} {carry : ℤ}
      {blocks : List (List ℕ)} {bits : List Bool} (done : List ℕ) (rest : List Bool) (s : Blocks)
      → Encodes d column p q carry blocks bits
      → p < 2 ^ 16
      → q < 2 ^ 16
      → length blocks < left
      → total ≤ column + 64 * length blocks
      → column + 64 * length blocks < total + 64
      → total + 64 < 2 ^ 32
      → 32 ≤ length rest
      → IsAtBlock tail bytes column p q carry done (bits ++ rest) s
      → read_blocks d false late left total s ≡ ok (done ++ samples blocks)
  unfolding read_blocks
  read_blocks-Encodes late zero total done rest s e low low' few enough near room more at =
      absurd (omega (arith, few))
  read_blocks-Encodes late (suc left) total {column} done rest s finished low low' few enough near
        room more at =
      let full : total ≤ s.column = omega (arith, enough, at.at_column) in
      rw (ge→ltb s.column total full, read_blocks) (ap ok (at.written ∙ sym (append-nil done)))
  read_blocks-Encodes late (suc left) total {column} {p} {q} {carry} done rest s
        (block {xs = xs} {blocks = blocks} {bits = bits} {others = others} full small codes e whole)
        low low' few enough near room more at =
      let two = last_two-small d.width column p q xs small low low' in
      let b =
        read_block-HasBlock column p q carry done xs bits (others ++ rest) s full small low
          (omega (arith, near, room)) (omega (arith, more, length-append others rest)) codes
          (subst (λ t. IsAtBlock tail bytes column p q carry done t s)
            (ap (λ t. t ++ rest) whole ∙ append_assoc bits others rest) at) in
      let below : s.column < total = omega (arith, near, at.at_column) in
      rw (lt→ltb s.column total below, read_blocks, b.returns)
        (read_blocks-Encodes late left total (done ++ xs) rest b.after e two.0 two.1
            (omega (arith, few)) (omega (arith, enough)) (omega (arith, near)) room more b.at
          ∙ ap ok (append_assoc done xs (samples blocks)))

header_lem :
    (view : View)
    → 16358 ≤ length view.bytes
    → scan (drop 514 (take 16358 view.bytes)) ≡ false
    → canon_has_lowbits view ≡ ok (false, record view { pos = 16358 })
unfolding canon_has_lowbits seek view_read
header_lem view long clean =
    rw
      (
        ge→ltb (length view.bytes) 0 (omega arith),
        le→leb (0 + 0x3fe6) (length view.bytes) (omega (arith, long)),
        clean,
      )
      refl

-- A file that holds a picture without low bits: 514 bytes, then the bytes `ws` with a zero behind
-- every 0xff, and at least 16,358 bytes in all, behind whose first 514 no 0xff is followed by another
-- byte than zero.
pub record IsFileOf (view : View) (header ws tail : List ℕ) : Type 0 where
  pub parts : view.bytes ≡ header ++ (stuff ws ++ tail)
  pub size : length header ≡ 514
  pub long : 16358 ≤ length view.bytes
  pub clean : scan (drop 514 (take 16358 view.bytes)) ≡ false
  pub words : All (λ w. w < 256) ws

-- From a file without low bits, `decompress_crw` returns the samples of every block in order, at 10 bits
-- each. The blocks are the fewest of 64 samples that cover the picture, a sample is below 2^16, and
-- behind the code of the blocks there are 32 bits or more.
pub decompress_crw-Encodes :
    (d : Decompress) (view : View) (header ws tail : List ℕ) (blocks : List (List ℕ))
    (bits rest : List Bool)
    → IsFileOf view header ws tail
    → Encodes d 0 0 0 (pos 0) blocks bits
    → bytes_bits ws ≡ bits ++ rest
    → 32 ≤ length rest
    → d.width * d.height ≤ 64 * length blocks
    → 64 * length blocks < d.width * d.height + 64
    → d.width * d.height + 64 < 2 ^ 32
    → decompress_crw d view
      ≡ ok (record { width = d.width; height = d.height; bpc = 10; pixels = samples blocks })
unfolding decompress_crw seek crw_u32
decompress_crw-Encodes d view header ws tail blocks bits rest file codes stream more enough near
      room =
    let at : IsAt tail view.bytes (record view { pos = 514 }) ws = record {
      whole = refl;
      left = ap (drop 514) file.parts ∙ drop-length header (stuff ws ++ tail) 514 (sym file.size);
      words = file.words;
    } in
    let started =
      get_bits-start tail view.bytes empty_pump (record view { pos = 514 }) ws at
        (omega (arith, more, ap length stream, length-append bits rest)) in
    let total = d.width * d.height in
    let start : Blocks = record {
      column = 0;
      base = pos 0 ∷ pos 0 ∷ [];
      carry = pos 0;
      pixels = [];
      pump = started.after.0;
      view = started.after.1;
    } in
    let at_start : IsAtBlock tail view.bytes 0 0 0 (pos 0) [] (bits ++ rest) start = record {
      at_column = refl;
      sums = refl;
      carried = refl;
      written = refl;
      before = subst (λ t. IsBefore tail view.bytes t started.after) stream started.before;
    } in
    rw
      (
        header_lem view file.long file.clean,
        ge→ltb (length view.bytes) 514 (omega (arith, file.long)),
        started.returns,
        lt→ltb total (2 ^ 32) (omega (arith, room)),
        read_blocks-Encodes d tail view.bytes panic (total / 64 + 2) total [] rest start codes
            (omega arith) (omega arith) (omega (arith, near)) (omega (arith, enough))
            (omega (arith, near)) room more at_start,
      )
      refl
