-- ===== src/Logging.antt =====
-- src/margo-logging.c
pub mod Defs
pub mod Laws
mod Tests
