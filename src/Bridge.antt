-- ===== src/Bridge.antt =====
-- src/bridge: the connections to the servers behind the conductor.
pub mod Rpc
pub mod Pool
pub mod Sessions
