-- ===== src/Web/Stream.antt =====
-- Event streams: the server (internal/platform/web/sse.go) and the browser (static/app.js).
pub mod Defs
pub mod Client
pub mod Blocks
pub mod Chunks
mod Examples
