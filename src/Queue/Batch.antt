-- ===== src/Queue/Batch.antt =====
-- internal/platform/queue: the batches of a consumer.
pub mod Message
pub mod Backoff
pub mod Run
pub mod Runs
pub mod Order
