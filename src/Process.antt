-- ===== src/Process.antt =====
-- src/margo-init.c, src/margo-abt-config.c, src/margo-globals.c: the instances of a process
pub mod Defs
pub mod Laws
mod Tests
