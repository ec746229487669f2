-- ===== src/User.antt =====
-- Package user (internal/user): accounts, passwords, login and the profile.
pub mod Table
pub mod Password
pub mod Service
pub mod Accounts
pub mod Login
pub mod Http
mod Examples
