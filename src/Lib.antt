-- ===== src/Lib.antt =====
-- libopenraw reads the raw files of digital cameras. A file format module (src/canon.rs,
-- src/nikon.rs, ...) opens a container (TIFF, CIFF, RAF, MP4), finds the raw data in it, and hands
-- the bytes to a decompressor, which returns the samples of the colour filter array. This library
-- models the decompressors: the part where untrusted bytes drive arithmetic, indices and loops.
--
-- Files and what they model (paths from the root of the repository):
-- - Prelude: the outcome of fallible code (`Error` of src/lib.rs, `Ok`, `Err`, panic), lists over
--   the native numbers, Boolean tests, bit masks.
-- - Tiff: `Compression` of src/tiff.rs. Tiff/Exif has the types of an entry (src/tiff/exif.rs),
--   Tiff/Entry the entries and their unsigned values (src/tiff/entry.rs), Tiff/Dir `Dir::read`
--   (src/tiff/dir.rs) and the loop of `Container::dirs` (src/tiff/container.rs) for a map of directories
--   without maker notes.
-- - Io: `View` of src/io.rs, as the bytes and a position of its own; every function that is modelled
--   seeks before it reads. The byteorder crate is an interface with the laws that it documents, and
--   ByteReader an instance.
-- - Mosaic: src/mosaic.rs. The conversion that the num_enum crate derives for `PatternColour` is the
--   parameter `try_from_primitive`, with `IsDerived` for what the crate documents of it.
-- - Bitmap: `ImageBuffer` of src/bitmap.rs.
-- - Thumbnail: `make_thumbnail` of src/container.rs, for a thumbnail at an offset.
-- - Decompress/Unpack: `unpack_be12to16` and `unpack_le12to16` of src/decompress.rs.
-- - Decompress/SlicedBuffer: src/decompress/sliced_buffer.rs, the output of lossless JPEG.
-- - Decompress/BitReader: `LJpegBitReader` of src/decompress/bit_reader.rs.
-- - Decompress/Ljpeg: src/decompress/ljpeg.rs. Markers has the marker codes, Info the state
--   `DecompressInfo` and the parser of the segments, Huffman the tables and the decoding of a
--   difference, Rows the predictors and rows, Image the headers, the set-up and `decompress_buffer`.
--   Tables is about the tables that `HuffmanTable::fix` derives, Codes about decoding with them, and
--   Coding about the rows and the bits that send them.
--   `BigEndian::read_u16` of the byteorder crate is the parameter `be_u16`.
-- - BitSource: the reader of the bitreader crate, an interface with the laws that the crate documents,
--   and a list of bits as an instance of it. Container: `Endian` of src/container.rs.
-- - Decompress/Blocks: `unpack_bento16` and `unpack_from_reader` of src/decompress.rs.
-- - Decompress/WordReader: `BitReaderBe32` and `BitReaderLe32` of src/decompress/bit_reader.rs, and
--   `unpack_14to16` of src/decompress.rs.
-- - Decompress/Tiled: `combine_tiles` of src/decompress/tiled.rs.
-- - Nikon: Huffman is src/nikon/huffman.rs, Tables and Cfa are src/nikon/diffiterator.rs, and Quantized
--   is the loop of `decompress_nikon_quantized` of src/nikon.rs over the samples.
-- - Panasonic/Raw1: src/panasonic/decompress.rs.
-- - Canon/Crw: src/canon/crw/decompress.rs. Tables has the specifications of the trees, Tree
--   `make_decoder`, Pump the reader of bits, Tokens the differences of a block, Sums its samples and
--   their low bits, and Crw `Decompress::decompress`.
-- - Canon/Ciff: src/canon/crw/ciff.rs, with `num_enum` for the tags as the parameter `from_primitive` and
--   `IsDerivedTag` for what that crate documents. Loaded is about the heaps of any file.
--   Files has the header, and of src/canon/crw/ciff/container.rs the way from it to the heaps and the
--   image specification.
-- - Fujifilm/Raf: src/fujifilm/raf.rs, the header of a file and the metadata container.
--
-- How the code is read. A `&mut self` method takes the record of its fields and returns the new
-- one. A `Vec` or slice is a list. A slice index out of range, a failed `assert!` and an arithmetic
-- overflow are a panic, as under overflow checks; `as` casts and `<<` wrap at the width of their
-- type, which is written out. The messages of errors, logging, capacity and probes are left out.
-- `usize` has 64 bits, and no length is near that bound. Loops are structural, over
-- a list or a count, or take a number of rounds. The marker loop of `process_tables` gets one round
-- more than the buffer has bytes, and each round passes two; filling the bit buffer gets 4 rounds of
-- 8 bits; a segment of Huffman tables gets its length, and a table takes 17 bytes; assigning the codes
-- gets 258 rounds for 257 entries and 18 for the 16 code lengths; a long code gets 10, from length 8
-- to the sentinel at 17; walking a Huffman tree of Nikon gets one round more than bits are left, and
-- the blocks of `unpack_from_reader` one more than the bytes wanted. `make_decoder` gets 17 levels for
-- codes of 16 bits at most, the walk down one of its trees a round for every bit that the pump and the
-- file can give, a block 64 rounds, and the blocks one round more than 64 columns each need. The loop of `Container::dirs` has
-- no bound in the source: its rounds are an argument.
--
-- Not modelled: file access, the JPEG and MP4 containers, the containers inside a RAF file, the values
-- of CIFF records, the maker notes, the tables of cameras and matrices, rendering in floating point, the vendored MP4 parser, the C interface and the tools.
pub mod Prelude
pub mod Tiff
pub mod Container
pub mod Io
pub mod Thumbnail
pub mod BitSource
pub mod Mosaic
pub mod Bitmap
pub mod Decompress
pub mod Panasonic
pub mod Nikon
pub mod Canon
pub mod Fujifilm
