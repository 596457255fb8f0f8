-- ===== src/Server.antt =====
-- The server binary: src/server.
pub mod Database
pub mod Configs
pub mod Network
pub mod Connections
pub mod Node
pub mod Tests
pub mod Main
