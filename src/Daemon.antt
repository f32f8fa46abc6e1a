-- ===== src/Daemon.antt =====
-- src/daemon: what the daemon keeps for its clients.
pub mod SharedKv
pub mod SharedLock
