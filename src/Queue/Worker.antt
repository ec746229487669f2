-- ===== src/Queue/Worker.antt =====
-- internal/platform/queue/worker.go: the worker.
pub mod Defs
pub mod Valid
pub mod Grown
pub mod Setup
pub mod Due
pub mod Spends
pub mod Ends
mod Examples
