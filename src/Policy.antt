-- ===== src/Policy.antt =====
-- The firewall of src/policy.c and the switches of src/privacy.c.
pub mod Table
pub mod Firewall
pub mod Privacy
pub mod Offline
pub mod Decisions
pub mod Reopening
