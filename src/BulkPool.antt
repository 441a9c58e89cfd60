-- ===== src/BulkPool.antt =====
-- src/margo-bulk-pool.c
pub mod Defs
pub mod Create
pub mod CreateLaws
pub mod Stack
pub mod Lending
pub mod Set
pub mod SetLaws
pub mod SetCreate
mod Tests
