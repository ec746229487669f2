-- ===== src/Queue/Sql.antt =====
-- internal/platform/queue/postgres.go: the statements of the queue package.
pub mod World
pub mod Runs
pub mod Statements
pub mod Transactions
pub mod Stored
