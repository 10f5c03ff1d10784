-- ===== src/Security.antt =====
-- The capability policy of src/security.c.
pub mod Table
pub mod Permissions
pub mod Log
