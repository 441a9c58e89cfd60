-- ===== src/Config.antt =====
-- src/margo-config.c
pub mod Defs
pub mod Calls
pub mod Instance
pub mod Laws
pub mod Pools
mod Tests
