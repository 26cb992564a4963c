-- ===== src/Fujifilm.antt =====
-- src/fujifilm/: the files of Fujifilm cameras.
pub mod Raf
