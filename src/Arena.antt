-- ===== src/Arena.antt =====
-- src/mochi-arena.c
pub mod Defs
pub mod FreeList
pub mod Laws
mod Tests
