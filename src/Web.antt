-- ===== src/Web.antt =====
-- Package web (internal/platform/web).
pub mod RateLimit
pub mod Recorder
pub mod Stream
