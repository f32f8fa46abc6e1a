-- ===== src/Tests.antt =====
-- Runs of the models at fixed inputs, and each theorem at an input that meets its hypotheses.
mod Gateway
mod Breaker
mod Retry
mod RateLimiter
mod SharedKv
mod SharedLock
mod Cache
mod WorkerPool
mod CacheLayer
mod Bridge
mod Sessions
mod Registry
mod Updates
mod Pool
mod Streaming
mod Permissions
