-- ===== src/Pool.antt =====
-- The pool of uplink connections (src/pool/UplinkPool.js).
pub mod State
pub mod Connect
pub mod Failover
pub mod Requests
pub mod Soundness
pub mod History
