-- ===== src/Timer.antt =====
-- src/margo-timer.c
pub mod Dl
pub mod Defs
pub mod Insert
pub mod Walk
pub mod Sort
pub mod Check
pub mod Expire
pub mod Destroy
mod Tests
