-- ===== src/Nikon.antt =====
-- src/nikon: the decompression of NEF files.
pub mod Huffman
pub mod Tables
pub mod Cfa
pub mod Quantized
