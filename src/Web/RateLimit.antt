-- ===== src/Web/RateLimit.antt =====
-- internal/platform/web/ratelimit.go: the rate limiter (GCRA). A time is a number of nanoseconds
-- since the zero time of Go, and a duration is a number of nanoseconds, both below 2 ^ 63.
pub mod Defs
pub mod Table
pub mod Rate
pub mod Clients
pub mod Address
mod Examples
pub use Defs.{RateLimiter, new_rate_limiter, sweep, allow}
