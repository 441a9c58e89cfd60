-- ===== src/PrioPool.antt =====
-- src/margo-prio-pool.c
pub mod Defs
pub mod UnitCalls
pub mod Ring
pub mod QueueLaws
pub mod Laws
pub mod PopLaws
pub mod Service
pub mod Remove
mod Tests
