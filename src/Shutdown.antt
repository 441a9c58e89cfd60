-- ===== src/Shutdown.antt =====
-- src/margo-core.c: the word `shutdown_state` of an instance.
pub mod Defs
pub mod Laws
pub mod Twice
mod Tests
