-- ===== src/Socks5.antt =====
-- components/socks5/protocol.go: SOCKS addresses, the two handshakes and the UDP header.
mod Defs
pub mod Text
pub mod Packet
pub mod Handshake
pub mod Listener
pub mod Streams
pub mod Decode
pub mod Parse
pub mod Meet
pub mod Closing
pub mod Listening
unfoldable pub use Defs.*
