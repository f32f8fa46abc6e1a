-- ===== src/Reliability.antt =====
-- src/reliability: the gateway that every backend call passes through, and the parts it composes.
pub mod Profile
pub mod Errors
pub mod Breaker
pub mod Retry
pub mod Timeout
pub mod Gateway
