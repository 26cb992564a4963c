-- ===== src/Container.antt =====
-- src/container.rs: the byte order of a container.
pub data Endian : Type 0 where
  unset big little : Endian
