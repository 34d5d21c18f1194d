-- ===== src/Snell.antt =====
-- components/snell: the Snell protocol on a connection.
mod Defs
pub mod Header
pub mod Session
pub mod Connect
pub mod Reply
pub use Defs.*
