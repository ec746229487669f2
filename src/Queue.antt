-- ===== src/Queue.antt =====
-- Package queue (internal/platform/queue).
pub mod Names
pub mod Batch
pub mod Sql
pub mod Schedule
pub mod Worker
pub mod Lead
mod Examples
mod DueExamples
