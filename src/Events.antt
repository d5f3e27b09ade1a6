-- ===== src/Events.antt =====
-- internal/events: the in-process event stream.
pub mod Broker
