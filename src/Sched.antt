-- ===== src/Sched.antt =====
-- The cooperative scheduler of src/sched.c and the tick of src/timer.c.
pub mod Table
pub mod Steps
pub mod Waking
pub mod Choice
