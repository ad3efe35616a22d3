-- ===== src/Messaging.antt =====
-- Messages between agents: the limiter of requests.
pub mod RateLimiter
mod Tests
