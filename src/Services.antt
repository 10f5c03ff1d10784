-- ===== src/Services.antt =====
-- The services of src/service.c.
pub mod Table
pub mod Control
