-- ===== src/PeerLink/Storage.antt =====
-- Peer-link storage over a key-value store
-- (src/peer-link/createKeyValueBackedPeerLinkStorage.js).
pub mod Base
pub mod Distinct
pub mod Reading
pub mod Links
pub mod Sessions
pub mod Handshakes
pub mod Events
pub mod Keys
