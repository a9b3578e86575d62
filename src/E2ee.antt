-- ===== src/E2ee.antt =====
-- End-to-end encryption (src/e2ee).
pub mod Base
pub mod Sessions
pub mod Channel
pub mod Failure
pub mod Sync
