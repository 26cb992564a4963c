-- ===== src/Nikon/Tables.antt =====
-- src/nikon/diffiterator.rs: the three trees, and the codes that the comments there list for them.
use libopenraw.Prelude.{ℕ, Bool, true, false, List, [], ◌∷◌}
use libopenraw.Nikon.Huffman.{HuffmanNode}

-- A code book: bits, and what they stand for.
abbrev pub Book : Type 0
Book = List (List Bool × ℕ)

abbrev pub lossy_12bit : List HuffmanNode
lossy_12bit =
    (false, 6)
    ∷ (false, 3)
    ∷ (true, 5)
    ∷ (false, 5)
    ∷ (true, 4)
    ∷ (true, 3)
    ∷ (false, 10)
    ∷ (false, 9)
    ∷ (true, 6)
    ∷ (true, 2)
    ∷ (false, 12)
    ∷ (true, 7)
    ∷ (false, 14)
    ∷ (true, 1)
    ∷ (false, 16)
    ∷ (true, 0)
    ∷ (false, 18)
    ∷ (true, 8)
    ∷ (false, 20)
    ∷ (true, 9)
    ∷ (false, 22)
    ∷ (true, 11)
    ∷ (false, 24)
    ∷ (true, 10)
    ∷ (false, 26)
    ∷ (true, 12)
    ∷ (true, 0)
    ∷ []

abbrev pub lossy_12bit_book : Book
lossy_12bit_book =
    (false ∷ false ∷ [], 5)
    ∷ (false ∷ true ∷ false ∷ [], 4)
    ∷ (false ∷ true ∷ true ∷ [], 3)
    ∷ (true ∷ false ∷ false ∷ [], 6)
    ∷ (true ∷ false ∷ true ∷ [], 2)
    ∷ (true ∷ true ∷ false ∷ [], 7)
    ∷ (true ∷ true ∷ true ∷ false ∷ [], 1)
    ∷ (true ∷ true ∷ true ∷ true ∷ false ∷ [], 0)
    ∷ (true ∷ true ∷ true ∷ true ∷ true ∷ false ∷ [], 8)
    ∷ (true ∷ true ∷ true ∷ true ∷ true ∷ true ∷ false ∷ [], 9)
    ∷ (true ∷ true ∷ true ∷ true ∷ true ∷ true ∷ true ∷ false ∷ [], 11)
    ∷ (true ∷ true ∷ true ∷ true ∷ true ∷ true ∷ true ∷ true ∷ false ∷ [], 10)
    ∷ (true ∷ true ∷ true ∷ true ∷ true ∷ true ∷ true ∷ true ∷ true ∷ false ∷ [], 12)
    ∷ (true ∷ true ∷ true ∷ true ∷ true ∷ true ∷ true ∷ true ∷ true ∷ true ∷ [], 0)
    ∷ []

abbrev pub lossy_14bit : List HuffmanNode
lossy_14bit =
    (false, 6)
    ∷ (false, 3)
    ∷ (true, 5)
    ∷ (false, 5)
    ∷ (true, 6)
    ∷ (true, 4)
    ∷ (false, 10)
    ∷ (false, 9)
    ∷ (true, 7)
    ∷ (true, 8)
    ∷ (false, 14)
    ∷ (false, 13)
    ∷ (true, 3)
    ∷ (true, 9)
    ∷ (false, 18)
    ∷ (false, 17)
    ∷ (true, 2)
    ∷ (true, 1)
    ∷ (false, 22)
    ∷ (false, 21)
    ∷ (true, 0)
    ∷ (true, 10)
    ∷ (false, 24)
    ∷ (true, 11)
    ∷ (false, 26)
    ∷ (true, 12)
    ∷ (false, 28)
    ∷ (true, 13)
    ∷ (true, 14)
    ∷ []

abbrev pub lossy_14bit_book : Book
lossy_14bit_book =
    (false ∷ false ∷ [], 5)
    ∷ (false ∷ true ∷ false ∷ [], 6)
    ∷ (false ∷ true ∷ true ∷ [], 4)
    ∷ (true ∷ false ∷ false ∷ [], 7)
    ∷ (true ∷ false ∷ true ∷ [], 8)
    ∷ (true ∷ true ∷ false ∷ false ∷ [], 3)
    ∷ (true ∷ true ∷ false ∷ true ∷ [], 9)
    ∷ (true ∷ true ∷ true ∷ false ∷ false ∷ [], 2)
    ∷ (true ∷ true ∷ true ∷ false ∷ true ∷ [], 1)
    ∷ (true ∷ true ∷ true ∷ true ∷ false ∷ false ∷ [], 0)
    ∷ (true ∷ true ∷ true ∷ true ∷ false ∷ true ∷ [], 10)
    ∷ (true ∷ true ∷ true ∷ true ∷ true ∷ false ∷ [], 11)
    ∷ (true ∷ true ∷ true ∷ true ∷ true ∷ true ∷ false ∷ [], 12)
    ∷ (true ∷ true ∷ true ∷ true ∷ true ∷ true ∷ true ∷ false ∷ [], 13)
    ∷ (true ∷ true ∷ true ∷ true ∷ true ∷ true ∷ true ∷ true ∷ [], 14)
    ∷ []

abbrev pub lossless_14bit : List HuffmanNode
lossless_14bit =
    (false, 6)
    ∷ (false, 3)
    ∷ (true, 7)
    ∷ (false, 5)
    ∷ (true, 6)
    ∷ (true, 8)
    ∷ (false, 10)
    ∷ (false, 9)
    ∷ (true, 5)
    ∷ (true, 9)
    ∷ (false, 14)
    ∷ (false, 13)
    ∷ (true, 4)
    ∷ (true, 10)
    ∷ (false, 18)
    ∷ (false, 17)
    ∷ (true, 3)
    ∷ (true, 11)
    ∷ (false, 22)
    ∷ (false, 21)
    ∷ (true, 12)
    ∷ (true, 2)
    ∷ (false, 24)
    ∷ (true, 0)
    ∷ (false, 26)
    ∷ (true, 1)
    ∷ (false, 28)
    ∷ (true, 13)
    ∷ (true, 14)
    ∷ []

abbrev pub lossless_14bit_book : Book
lossless_14bit_book =
    (false ∷ false ∷ [], 7)
    ∷ (false ∷ true ∷ false ∷ [], 6)
    ∷ (false ∷ true ∷ true ∷ [], 8)
    ∷ (true ∷ false ∷ false ∷ [], 5)
    ∷ (true ∷ false ∷ true ∷ [], 9)
    ∷ (true ∷ true ∷ false ∷ false ∷ [], 4)
    ∷ (true ∷ true ∷ false ∷ true ∷ [], 10)
    ∷ (true ∷ true ∷ true ∷ false ∷ false ∷ [], 3)
    ∷ (true ∷ true ∷ true ∷ false ∷ true ∷ [], 11)
    ∷ (true ∷ true ∷ true ∷ true ∷ false ∷ false ∷ [], 12)
    ∷ (true ∷ true ∷ true ∷ true ∷ false ∷ true ∷ [], 2)
    ∷ (true ∷ true ∷ true ∷ true ∷ true ∷ false ∷ [], 0)
    ∷ (true ∷ true ∷ true ∷ true ∷ true ∷ true ∷ false ∷ [], 1)
    ∷ (true ∷ true ∷ true ∷ true ∷ true ∷ true ∷ true ∷ false ∷ [], 13)
    ∷ (true ∷ true ∷ true ∷ true ∷ true ∷ true ∷ true ∷ true ∷ [], 14)
    ∷ []
