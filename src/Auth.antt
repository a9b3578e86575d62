-- ===== src/Auth.antt =====
-- Authentication against a node (src/auth).
pub mod Principal
pub mod Handshake
pub mod Setup
