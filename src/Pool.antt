-- ===== src/Pool.antt =====
-- components/snell/pool.go, and the client's use of it by many goroutines.
pub mod Store
pub mod Steps
pub mod Counts
pub mod Places
pub mod Owned
