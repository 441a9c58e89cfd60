-- ===== src/AbtConfig.antt =====
-- src/margo-abt-config.c
pub mod Json
pub mod Entries
pub mod Names
pub mod Pools
pub mod Xstreams
pub mod Arrays
pub mod Counts
pub mod Creation
pub mod Usage
pub mod Steps
pub mod Removal
pub mod Lifetime
pub mod Init
pub mod Destroy
pub mod Checked
mod Tests
