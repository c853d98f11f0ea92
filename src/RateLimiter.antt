-- ===== src/RateLimiter.antt =====
-- The limiter of requests: apps/api/src/redis/rate-limiter.ts.
pub mod Windows
pub mod Allowed
mod Tests
