-- ===== src/DeviceLink.antt =====
-- Linking a new device (src/device-link).
pub mod Requester
pub mod Confirmed
pub mod Timeout
