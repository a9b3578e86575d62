-- ===== src/Events.antt =====
-- The event bus (src/events/TypedEventBus.js).
pub mod Bus
