-- ===== src/Config.antt =====
-- internal/platform/config: the configuration of a process.
pub mod Defs
pub mod Regions
