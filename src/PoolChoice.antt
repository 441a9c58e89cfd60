-- ===== src/PoolChoice.antt =====
-- src/margo-init.c: the progress pool and the pool for RPCs of a new instance
pub mod Defs
pub mod Handles
pub mod Laws
pub mod Chosen
mod Tests
