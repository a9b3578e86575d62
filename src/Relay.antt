-- ===== src/Relay.antt =====
-- The downgrade floor of relays (src/relay).
pub mod Floor
pub mod Policy
