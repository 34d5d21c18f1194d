-- ===== src/Http.antt =====
-- components/simple-obfs/http: a stream dressed as an upgrade of HTTP.
pub mod Types
pub mod Client
pub mod Server
pub mod Taps
pub mod Meets
pub mod Answers
