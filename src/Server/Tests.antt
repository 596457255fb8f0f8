-- ===== src/Server/Tests.antt =====
-- Tests of the server, on a small stand-in for the OmniPaxos and JSON libraries.
pub mod Toy
mod Storage
pub mod Wires
pub mod Runs
mod Disk
mod Told
pub mod Answered
pub mod Whole
mod Boot
