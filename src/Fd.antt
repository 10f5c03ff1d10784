-- ===== src/Fd.antt =====
-- The per-process descriptor tables of src/fd.c.
pub mod Table
pub mod Closing
pub mod Files
pub mod Chunks
