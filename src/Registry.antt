-- ===== src/Registry.antt =====
-- The arrays of named entries that src/margo-abt-config.c keeps: searches, changes in place and the
-- removal that moves the last entry.
pub mod Defs
pub mod Totals
