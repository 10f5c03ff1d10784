-- ===== src/Fs.antt =====
-- The RAM file system of src/fs.c: a table of nodes that name their parents.
pub mod Node
pub mod Path
pub mod Ops
pub mod Listing
pub mod Init
pub mod Tree
pub mod Bounds
pub mod Keeps
pub mod Walk
pub mod Parts
pub mod Create
pub mod RoundTrip
pub mod Children
pub mod Buffers
pub mod Boot
pub mod Moves
pub mod Session
