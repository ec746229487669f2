-- ===== src/Database.antt =====
-- internal/platform/database: the migrations.
pub mod Migrate
pub mod Files
pub mod Resume
mod Examples
