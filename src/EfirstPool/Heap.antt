-- ===== src/EfirstPool/Heap.antt =====
-- src/margo-efirst-pool.c: the loops of `queue_push_prio` and `queue_pop_prio` over the entries of
-- the binary heap, which stand at the indices 1 to `size`. An entry is the address of a unit, and
-- `key` is the priority found there. A loop runs on fuel, and `none` is to run out of it.
mod Order
mod Count
pub mod Up
pub mod Down
pub use Order.*
pub use Count.*
