-- ===== src/Cache.antt =====
-- src/cache: the keys of the response cache and how long a result may stay in it.
pub mod Key
pub mod Policy
pub mod Delta
pub mod Lru
pub mod Disk
pub mod Layer
