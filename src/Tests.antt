-- ===== src/Tests.antt =====
-- The tests and the witnesses, one module per part.
mod Fs
mod Process
mod Descriptors
mod Sched
mod Jobs
mod Events
mod Storage
mod Security
mod Proof
mod Boot
mod Policy
mod Net
mod Shell
mod Math
mod Editor
mod Devices
