-- ===== src/PeerLink.antt =====
-- The peer-link component (src/peer-link).
pub mod Lifecycle
pub mod Storage
pub mod Devices
