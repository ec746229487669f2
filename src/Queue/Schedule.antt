-- ===== src/Queue/Schedule.antt =====
-- internal/platform/queue: the schedules (worker_lead.go, postgres.go).
pub mod Defs
pub mod Slots
