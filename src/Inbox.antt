-- ===== src/Inbox.antt =====
-- The client's inbox claims (src/inbox/InboxClaimStore.js).
pub mod Claim
pub mod Store
