-- ===== src/Panasonic.antt =====
-- src/panasonic/: the decompression of Panasonic raw files.
pub mod Raw1
