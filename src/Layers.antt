-- ===== src/Layers.antt =====
-- The layers of a connection on one another: a disguise (components/simple-obfs) under the encrypted
-- stream (components/aead).
pub mod Loop
pub mod Whole
pub mod TlsWrites
pub mod TlsEnds
pub mod HttpEnds
pub mod SealedStream
pub mod Follow
pub mod TlsReplies
pub mod ReplyStream
pub mod Through
pub mod Handshakes
pub mod Replies
