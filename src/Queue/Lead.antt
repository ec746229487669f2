-- ===== src/Queue/Lead.antt =====
-- The active worker: who holds the worker lock, and who runs handlers.
pub mod System
pub mod Invariant
pub mod Locks
pub mod Exclusion
mod Examples
