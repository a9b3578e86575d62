-- ===== src/Tests.antt =====
-- Tests on concrete inputs, and the theorems applied at them.
mod PeerLink
mod Relay
mod Connection
mod Pool
mod Inbox
mod Auth
mod Metrics
mod Events
mod Transport
mod Storage
mod Devices
mod FileTransfer
mod E2ee
mod DeviceLink
