-- ===== src/Decompress/Ljpeg/Tables.antt =====
-- The canonical code of a DHT segment: the codes of a length are numbered in order, and the first one
-- is twice the number behind those that are a bit shorter.
pub mod Sizes
pub mod Numbered
pub mod Encoder
pub mod Bounds
pub mod Lookups
pub mod Groups
pub mod Levels
pub mod Coded
pub mod Parts
pub mod Arrays
pub mod Fixed
pub mod Segment
mod Examples
use libopenraw.Prelude.{ℕ, zero, suc, ◌+◌, ◌*◌, ◌^◌, ◌<◌, List, [], ◌++◌, ◌∷◌, get_or, replicate}

-- How many codes have `l` bits.
abbrev pub count : List ℕ → ℕ → ℕ
count bits l = get_or bits l 0

-- The lengths of the codes, in order, from `l` on.
abbrev pub sizes_from : List ℕ → ℕ → ℕ → List ℕ
sizes_from bits zero l = []
sizes_from bits (suc left) l = replicate (count bits l) l ++ sizes_from bits left (l + 1)

abbrev pub ascending : ℕ → ℕ → List ℕ
ascending zero code = []
ascending (suc n) code = code ∷ ascending n (code + 1)

-- The codes in order, where `code` is the first one of `l` bits.
abbrev pub codes_from : List ℕ → ℕ → ℕ → ℕ → List ℕ
codes_from bits zero l code = []
codes_from bits (suc left) l code =
    ascending (count bits l) code ++ codes_from bits left (l + 1) ((code + count bits l) * 2)

-- The codes of each length fit, and none is all ones, which the JPEG standard reserves.
abbrev pub IsFitting : List ℕ → ℕ → ℕ → ℕ → Type 0
IsFitting bits zero l code = Unit {0}
IsFitting bits (suc left) l code =
    (code + count bits l < 2 ^ l) × IsFitting bits left (l + 1) ((code + count bits l) * 2)

-- A code of `size` bits with its symbol.
pub record CodeEntry : Type 0 where
  pub size : ℕ
  pub code : ℕ
  pub symbol : ℕ

abbrev pub entries : List ℕ → ℕ → ℕ → ℕ → ℕ → List CodeEntry
entries huffval zero l p code = []
entries huffval (suc n) l p code =
    record { size = l; code = code; symbol = get_or huffval p 0 }
    ∷ entries huffval n l (p + 1) (code + 1)

-- The canonical code, from length `l` on: the symbols come in the order of their codes.
abbrev pub book_from : List ℕ → List ℕ → ℕ → ℕ → ℕ → ℕ → List CodeEntry
book_from bits huffval zero l p code = []
book_from bits huffval (suc left) l p code =
    entries huffval (count bits l) l p code
    ++ book_from bits huffval left (l + 1) (p + count bits l) ((code + count bits l) * 2)
