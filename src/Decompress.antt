-- ===== src/Decompress.antt =====
-- src/decompress.rs and src/decompress/: unpacking and decompression shared by the file formats.
pub mod Unpack
pub mod SlicedBuffer
pub mod BitReader
pub mod Ljpeg
pub mod Tiled
pub mod WordReader
pub mod Blocks
