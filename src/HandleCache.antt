-- ===== src/HandleCache.antt =====
-- src/margo-handle-cache.c
pub mod Defs
pub mod Laws
mod Tests
