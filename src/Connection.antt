-- ===== src/Connection.antt =====
-- A single transport connection (src/connection).
pub mod Machine
