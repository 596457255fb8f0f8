-- ===== src/Client.antt =====
-- The client: src/client.
pub mod Data
pub mod Results
pub mod Configs
pub mod Network
pub mod Connections
pub mod ShimClient
pub mod Shim
pub mod LoadClient
pub mod Api
pub mod Tests
pub mod Main
