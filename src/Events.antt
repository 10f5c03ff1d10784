-- ===== src/Events.antt =====
-- The event bus of src/events.c.
pub mod Rules
pub mod Dispatch
