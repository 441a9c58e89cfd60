-- ===== src/EfirstPool.antt =====
-- src/margo-efirst-pool.c
pub mod Heap
pub mod Queue
pub mod UnitCalls
pub mod PrioLaws
pub mod Fifo
pub mod Laws
pub mod Push
pub mod Pop
mod Tests
