-- ===== src/Jobs.antt =====
-- The job accounting of src/jobs.c.
pub mod Table
pub mod Accounting
