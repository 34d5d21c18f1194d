-- ===== src/Relay.antt =====
-- components/utils/relay.go: two copies side by side, of which each ends the other.
pub mod Steps
pub mod Linked
pub mod Outcome
pub mod Ends
