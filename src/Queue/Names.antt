-- ===== src/Queue/Names.antt =====
-- internal/platform/queue/queue.go: names and error texts.
pub mod Defs
pub mod Texts
