-- ===== src/Setup.antt =====
-- The constructors of the client and the server, and the two commands.
pub mod Obfs
pub mod Ends
pub mod Commands
pub mod Agree
