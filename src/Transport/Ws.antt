-- ===== src/Transport/Ws.antt =====
-- The WebSocket transport (src/transport/WsTransport.js). The sockets and the timers are the
-- environment: it chooses which event comes next.
pub mod Socket
pub mod Inbound
pub mod Once
pub mod Heartbeat
pub mod Malformed
pub mod Stale
