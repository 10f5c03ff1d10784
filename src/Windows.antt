-- ===== src/Windows.antt =====
-- The windows of src/window.c.
pub mod Table
pub mod Focus
