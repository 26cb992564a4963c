-- ===== src/Canon.antt =====
-- src/canon/: the CRW files of Canon.
pub mod Crw
pub mod Ciff
