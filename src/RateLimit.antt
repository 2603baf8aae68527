-- ===== src/RateLimit.antt =====
-- internal/ratelimit: the politeness policy for each upstream host. Times are nanoseconds.
pub mod HostKey
pub mod RetryAfter
pub mod Limiter
pub mod Breaker
pub mod Guard
mod Tests
