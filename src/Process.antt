-- ===== src/Process.antt =====
-- The process table, messages, pipes, handles and signals of src/process.c.
pub mod Table
pub mod Lifecycle
pub mod Channels
pub mod Numbers
pub mod Ending
pub mod Yielding
pub mod Delivery
