-- ===== src/Math.antt =====
-- The number theory of src/mathlib.c.
pub mod Numbers
pub mod Gcd
pub mod Powers
