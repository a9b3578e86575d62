-- ===== src/Transport/Tcp.antt =====
-- The TCP transport (src/transport/TcpTransport.js) over its framing; the sockets and the timers are
-- the environment.
pub mod Socket
pub mod Once
pub mod Chunks
