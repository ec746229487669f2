-- ===== src/Web/Recorder.antt =====
-- internal/platform/web/middleware.go: the status recorder.
pub mod Defs
pub mod Status
mod Examples
