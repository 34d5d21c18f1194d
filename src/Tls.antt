-- ===== src/Tls.antt =====
-- components/simple-obfs/tls: a stream in the shape of a TLS 1.2 session.
mod Types
pub mod Block
pub mod Hello
pub mod Writing
pub mod Client
pub mod Server
pub mod Records
pub mod Shape
pub mod ServerFlow
pub mod Sending
pub mod ClientFlow
pub use Types.*
