-- ===== src/Net.antt =====
-- The loopback network of src/net.c.
pub mod Table
pub mod Packets
pub mod Sockets
pub mod Closing
pub mod Boot
pub mod States
pub mod Calls
pub mod Ports
pub mod Quiet
pub mod Exclusion
pub mod Claims
pub mod Runs
pub mod Steps
pub mod Gate
pub mod Delivery
pub mod Arrival
