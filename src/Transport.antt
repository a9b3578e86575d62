-- ===== src/Transport.antt =====
-- The transports (src/transport).
pub mod Framing
pub mod Requests
pub mod Ws
pub mod Tcp
