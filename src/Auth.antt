-- ===== src/Auth.antt =====
-- Package auth (internal/auth): browser sessions.
pub mod Table
pub mod Newest
pub mod Older
pub mod Service
pub mod Kept
pub mod Login
mod Examples
pub mod Jobs
