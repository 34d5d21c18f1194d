-- ===== src/Mux.antt =====
-- components/snell: many sessions on one connection.
pub mod Link
pub mod Server
pub mod Drains
pub mod Visits
pub mod Serving
pub mod Takes
pub mod Halts
pub mod Client
pub mod Position
pub mod Copied
pub mod Reuse
pub mod Answers
pub mod Meet
pub mod Hostile
