-- ===== src/Redis.antt =====
-- packages/redis: how often a caller may do something.
pub mod RateLimit
mod Tests
