-- ===== src/KernelSqlite.antt =====
-- The persistence of the Kernel (rust/crates/kernel-sqlite).
pub mod RateLimit
mod RateLimitExamples
pub mod Store
pub mod Events
pub mod Cursor
pub mod OutboxTables
pub mod Outbox
mod OutboxExamples
