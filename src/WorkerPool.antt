-- ===== src/WorkerPool.antt =====
-- src/runtime/pool: the warm workers that run code.
pub mod Recycle
