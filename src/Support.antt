-- ===== src/Support.antt =====
-- What the other parts of the server stand on: the retry of serializable transactions and the storage
-- of the rate limiter.
pub mod Retry
pub mod Throttle
mod Tests
