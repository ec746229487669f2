-- ===== src/Triage.antt =====
-- Package triage (internal/triage): a decision from the answers of a System One model.
pub mod Decide
pub mod Sound
mod Examples
