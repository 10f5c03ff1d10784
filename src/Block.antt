-- ===== src/Block.antt =====
-- The sector device of src/block.c.
pub mod Sectors
pub mod Persistence
