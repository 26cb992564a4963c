-- ===== src/Decompress/Ljpeg/Tables/Examples.antt =====
-- The theorems at concrete inputs.
use libopenraw.Decompress.Ljpeg.Huffman.{fix}
use libopenraw.Decompress.Ljpeg.Tables.Fixed.{IsFixed, fix-IsFixed}
use libopenraw.Decompress.Ljpeg.Tables.Segment.{segment, segment-IsFilled}

fix-IsFixed_example : IsFixed segment.bits segment.huffval (fix segment)
fix-IsFixed_example = fix-IsFixed segment segment-IsFilled
