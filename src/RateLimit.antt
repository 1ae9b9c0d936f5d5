-- ===== src/RateLimit.antt =====
-- src/api/middleware: the rate limiter. `Rules` is rate-limit.config.ts, `Window` the service of
-- rate-limit.service.ts with its Redis script, `Middleware` rate-limit.middleware.ts.
pub mod Rules
pub mod Keyspace
pub mod Window
pub mod Log
pub mod Script
pub mod Middleware
pub mod Retry
mod Tests
