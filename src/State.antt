-- ===== src/State.antt =====
-- state: sessions, their rate limits, and the feedbag (server-side buddy list).
pub mod RateLimits
pub mod FeedbagList
pub mod Session
pub mod SessionManager
pub mod Cookie
pub mod Handle
mod Tests
