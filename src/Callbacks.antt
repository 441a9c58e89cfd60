-- ===== src/Callbacks.antt =====
-- src/margo-core.c: the callbacks that run when an instance is finalized
pub mod Defs
pub mod Laws
mod Tests
