-- ===== src/Shell.antt =====
-- The input line of src/shell.c.
pub mod Buffer
pub mod Input
pub mod Line
pub mod Shifts
pub mod Strings
pub mod Refinement
pub mod Edits
pub mod History
