-- ===== src/Common.antt =====
-- common.rs
pub mod Channel
pub mod Output
pub mod Settings
pub mod Framing
pub mod Tasks
pub mod Connection
pub mod Kv
pub mod Messages
pub mod Spec
pub mod Snapshot
mod Tests
