-- ===== src/Api.antt =====
-- backend/internal/api: the middleware in front of every handler, and what a request says of its
-- client.
pub mod RateLimiter
pub mod Security
pub mod Telemetry
