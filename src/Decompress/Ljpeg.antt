-- ===== src/Decompress/Ljpeg.antt =====
-- src/decompress/ljpeg.rs: lossless JPEG, as CR2 and DNG files hold it.
pub mod Huffman
pub mod Info
pub mod Markers
pub mod Rows
pub mod Image
pub mod Size
pub mod Search
pub mod Signs
pub mod Codes
pub mod Samples
pub mod Coding
pub mod Tables
pub mod Rounds
mod Examples
pub mod Frame
