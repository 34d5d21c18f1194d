-- ===== src/Udp.antt =====
-- components/snell/server.go: UDP over a session, `handleUDPRequest` and `handleUDPIngress`.
pub mod Request
pub mod Forward
pub mod Ingress
pub mod Formats
pub mod Cached
