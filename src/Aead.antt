-- ===== src/Aead.antt =====
-- components/aead/stream.go and cipher.go: the encrypted stream.
mod Types
pub mod Nonce
pub mod Cipher
pub mod Writer
pub mod Reader
pub mod Counter
pub mod Frames
pub mod Sealing
pub mod Opening
pub mod Plain
pub mod RoundTrip
pub mod Stream
pub mod Pending
pub mod FirstRead
pub mod Negotiate
pub use Types.*
