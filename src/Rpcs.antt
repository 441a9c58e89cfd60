-- ===== src/Rpcs.antt =====
-- src/margo-core.c: registering RPCs, and the references of RPCs to pools
pub mod Defs
pub mod Laws
mod Tests
