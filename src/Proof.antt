-- ===== src/Proof.antt =====
-- The proof engine of src/proofcore.c.
pub mod Checker
pub mod Steps
pub mod Soundness
