-- ===== src/Lifecycle.antt =====
-- src/margo-core.c: the references to an instance, and the threads that wait for its end
pub mod Defs
pub mod Laws
mod Tests
