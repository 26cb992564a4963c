-- ===== src/Decompress/WordReader/Loads.antt =====
-- Loading, showing and consuming bits keep the bits that are to come.
use native.Mathlib.Nat.{one-le-pow, pow-le-pow_right}
use libopenraw.Prelude.{
  ℕ, ◌+◌, ◌-◌, ◌*◌, ◌/◌, ◌%◌, ◌^◌, ◌≤◌, ◌<◌, ◌≡◌, refl, sym, ap, ◌∙◌, subst, inl, inr, Bool,
  Bool-cases, List, [], ◌∷◌, ◌++◌, append_assoc, append-nil, All, length, length-append, take, drop,
  take-length, drop-length, le→leb, ltb, lt→ltb, ltb→lt, ltb→ge, Result, ok, ◌>>=◌, bit_and, bit_or,
  bit_and_mask, bit_or_fields, shl, low_mask, div_unique, mod_unique, min, arith,
}
use libopenraw.Io.{ByteOrder, big_endian, little_endian, ByteOrderCrate, IsByteOrder, u32_bytes}
use libopenraw.BitSource.{low_bits}
use libopenraw.BitSource.Fields.{length-low_bits}
use libopenraw.Tiff.Entry.Values.{packed, length-u32_bytes}
use libopenraw.Decompress.Blocks.Rows.{row_bits}
use libopenraw.Decompress.WordReader.{WordReader, load_word, word_shown, word_peek, word_consume}
use libopenraw.Decompress.WordReader.Stream.{low_bits-add, low_bits-mod}

-- The loaded bits of a reader, and those of the words that are left.
abbrev pub pending : WordReader → List ℕ → List Bool
pending r ws = low_bits r.bits_left r.bits ++ row_bits 32 ws

-- The bytes are those of the words and what follows them, and fewer than two words are loaded.
pub record IsAt (o : ByteOrder) (tail : List ℕ) (r : WordReader) (ws : List ℕ) : Type 0 where
  pub left : r.bytes ≡ packed (u32_bytes o) ws ++ tail
  pub words : All (λ w. w < 2 ^ 32) ws
  pub few : r.bits_left ≤ 48

joined : (x w : ℕ) → w < 2 ^ 32 → bit_or (shl 64 x 32) w ≡ x % 2 ^ 32 * 2 ^ 32 + w
joined x w h =
    let cut : shl 64 x 32 ≡ x % 2 ^ 32 * 2 ^ 32 = omega arith in
    ap (λ q. bit_or q w) cut ∙ bit_or_fields 32 (x % 2 ^ 32) w h

-- A word joins the loaded bits.
low_bits-joined :
    (l x w : ℕ)
    → l ≤ 32
    → w < 2 ^ 32
    → low_bits (l + 32) (bit_or (shl 64 x 32) w) ≡ low_bits l x ++ low_bits 32 w
low_bits-joined l x w small h =
    let whole : ℕ = bit_or (shl 64 x 32) w in
    let upper : whole / 2 ^ 32 ≡ x % 2 ^ 32 =
      ap (λ t. t / 2 ^ 32) (joined x w h) ∙ div_unique (x % 2 ^ 32) (2 ^ 32) w h in
    let lower : whole % 2 ^ 32 ≡ w =
      ap (λ t. t % 2 ^ 32) (joined x w h) ∙ mod_unique (x % 2 ^ 32) (2 ^ 32) w h in
    let size : l + (32 - l) ≡ 32 = omega (arith, small) in
    let front : low_bits l (x % 2 ^ 32) ≡ low_bits l x =
      subst (λ k. low_bits l (x % 2 ^ k) ≡ low_bits l x) size (low_bits-mod l (32 - l) x) in
    let back : low_bits 32 whole ≡ low_bits 32 w =
      sym (low_bits-mod 32 0 whole) ∙ ap (low_bits 32) lower in
    low_bits-add l 32 whole
    ∙ ap (λ q. low_bits l q ++ low_bits 32 whole) upper
    ∙ ap (λ t. t ++ low_bits 32 whole) front
    ∙ ap (λ t. low_bits l x ++ t) back

masked : (n x : ℕ) → n ≤ 16 → bit_and x (low_mask n) % 2 ^ 16 ≡ x % 2 ^ n
masked n x small =
    let up : 2 ^ n ≤ 2 ^ 16 = pow-le-pow_right (omega arith) small in
    let less : x % 2 ^ n < 2 ^ n = mod_lt x (2 ^ n) (one-le-pow n 2 (omega arith)) in
    ap (λ t. t % 2 ^ 16) (bit_and_mask n x) ∙ under (x % 2 ^ n) (omega (arith, up, less))
  where
    mod_lt : (a p : ℕ) → 1 ≤ p → a % p < p
    mod_lt a p h = grind arith

    under : (a : ℕ) → a < 2 ^ 16 → a % 2 ^ 16 ≡ a
    under a h = omega (arith, h)

module _ (c : ByteOrderCrate) (laws : IsByteOrder c) (o : ByteOrder) (tail : List ℕ) where
  -- A step that returned, with the reader and the words behind it.
  pub record HasBits (value : ℕ) (bits : List Bool) (m : Result (ℕ × WordReader)) : Type 0 where
    pub after : WordReader
    pub ws : List ℕ
    pub returns : m ≡ ok (value, after)
    pub at : IsAt o tail after ws
    pub rest : pending after ws ≡ bits

  load_word-IsAt :
      (r : WordReader) (w : ℕ) (ws : List ℕ)
      → IsAt o tail r (w ∷ ws)
      → r.bits_left ≤ 16
      → (r' : WordReader) × (load_word c o r ≡ ok r')
        × IsAt o tail r' ws
        × (pending r' ws ≡ pending r (w ∷ ws))
        × (r'.bits_left ≡ r.bits_left + 32)
  unfolding load_word
  load_word-IsAt r w ws at small =
      let others : List ℕ = packed (u32_bytes o) ws ++ tail in
      let four = length-u32_bytes o w in
      let whole : r.bytes ≡ u32_bytes o w ++ others =
        at.left ∙ append_assoc (u32_bytes o w) (packed (u32_bytes o) ws) tail in
      let first : take 4 r.bytes ≡ u32_bytes o w =
        ap (take 4) whole ∙ take-length (u32_bytes o w) others 4 (sym four) in
      let behind : drop 4 r.bytes ≡ others =
        ap (drop 4) whole ∙ drop-length (u32_bytes o w) others 4 (sym four) in
      let word : c.read_u32 o (u32_bytes o w) ≡ ok w =
        subst (λ t. c.read_u32 o t ≡ ok w) (append-nil (u32_bytes o w))
          (laws.reads_u32 o w [] at.words.0) in
      let enough : 4 ≤ length r.bytes =
        omega (arith, ap length whole, length-append (u32_bytes o w) others, four) in
      (
        record {
          bytes = drop 4 r.bytes;
          bits_left = r.bits_left + 32;
          bits = bit_or (shl 64 r.bits 32) w;
        },
        rw
            (
              le→leb 4 (length r.bytes) enough,
              first,
              word,
              lt→ltb (r.bits_left + 32) (2 ^ 8) (omega (arith, small)),
            )
            refl,
        record { left = behind; words = at.words.1; few = omega (arith, small) },
        ap (λ t. t ++ row_bits 32 ws)
              (low_bits-joined r.bits_left r.bits w (omega (arith, small)) at.words.0)
            ∙ append_assoc (low_bits r.bits_left r.bits) (low_bits 32 w) (row_bits 32 ws),
        refl,
      )

  -- The bits that are asked for are loaded.
  pub record HasLoaded (n : ℕ) (bits : List Bool) (m : Result (ℕ × WordReader)) : Type 0 where
    pub after : WordReader
    pub ws : List ℕ
    pub returns : m ≡ ok (after.bits / 2 ^ (after.bits_left - n) % 2 ^ n, after)
    pub at : IsAt o tail after ws
    pub same : pending after ws ≡ bits
    pub enough : n ≤ after.bits_left

  shown_lem :
      (n : ℕ) (r : WordReader)
      → n ≤ 16
      → n ≤ r.bits_left
      → r.bits_left ≤ 48
      → word_shown n r ≡ ok (r.bits / 2 ^ (r.bits_left - n) % 2 ^ n, r)
  unfolding word_shown
  shown_lem n r small enough few =
      rw
        (
          le→leb n r.bits_left enough,
          lt→ltb (r.bits_left - n) 64 (omega (arith, few)),
          lt→ltb n 32 (omega (arith, small)),
          masked n (r.bits / 2 ^ (r.bits_left - n)) small,
        )
        refl

  pub word_peek-HasLoaded :
      (n : ℕ) (r : WordReader) (ws : List ℕ)
      → n ≤ 16
      → IsAt o tail r ws
      → n ≤ length (pending r ws)
      → HasLoaded n (pending r ws) (word_peek c o n r)
  unfolding word_peek
  word_peek-HasLoaded n r ws small at enough = elim (Bool-cases (ltb r.bits_left n)) [
    | inl e ↦ rw e (with_word ws at enough (ltb→lt r.bits_left n e))
    | inr e ↦ rw e (record {
      after = r;
      ws = ws;
      returns = shown_lem n r small (ltb→ge r.bits_left n e) at.few;
      at = at;
      same = refl;
      enough = ltb→ge r.bits_left n e;
    })
  ]
    where
      with_word :
          (ws : List ℕ)
          → IsAt o tail r ws
          → n ≤ length (pending r ws)
          → r.bits_left < n
          → HasLoaded n (pending r ws) (load_word c o r >>= word_shown n)
      with_word [] at enough short = absurd (
          omega (
            arith,
            enough,
            short,
            length-append (low_bits r.bits_left r.bits) [],
            length-low_bits r.bits_left r.bits,
          ))
      with_word (w ∷ ws) at enough short =
          let (r', loads, at', same, count) =
            load_word-IsAt r w ws at (omega (arith, short, small)) in
          let there : n ≤ r'.bits_left = omega (arith, count, small) in
          rw loads (record {
            after = r';
            ws = ws;
            returns = shown_lem n r' small there at'.few;
            at = at';
            same = same;
            enough = there;
          })

  pub word_consume-IsAt :
      (p : ByteOrder) (n k : ℕ) (r : WordReader) (ws : List ℕ)
      → IsAt o tail r ws
      → r.bits_left ≡ n + k
      → (r' : WordReader) × (word_consume p n r ≡ ok r')
        × IsAt o tail r' ws
        × (pending r' ws ≡ low_bits k r.bits ++ row_bits 32 ws)
  unfolding word_consume
  word_consume-IsAt big_endian n k r ws at count =
      let less : r.bits_left - n ≡ k = omega (arith, count) in
      let whole : k + 0 ≡ k = omega arith in
      (
        record r { bits_left = k; bits = r.bits % 2 ^ k },
        rw
            (
              le→leb n r.bits_left (omega (arith, count)),
              less,
              lt→ltb k 64 (omega (arith, at.few, count)),
              bit_and_mask k r.bits,
            )
            refl,
        record { left = at.left; words = at.words; few = omega (arith, at.few, count) },
        ap (λ t. t ++ row_bits 32 ws) (rw whole at (low_bits-mod k 0 r.bits)),
      )
  word_consume-IsAt little_endian n k r ws at count =
      let less : r.bits_left - min n r.bits_left ≡ k = omega (arith, count) in
      (
        record r { bits_left = k },
        rw less refl,
        record { left = at.left; words = at.words; few = omega (arith, at.few, count) },
        refl,
      )
