-- ===== src/Alloc.antt =====
-- components/utils/pool/alloc.go: the pools of buffers, by size class.
pub mod Bits
pub mod Pools
pub mod Filed
pub mod Classes
