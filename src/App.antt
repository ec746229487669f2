-- ===== src/App.antt =====
-- internal/app: how the process puts its parts together.
pub mod Models
pub mod Served
mod Examples
