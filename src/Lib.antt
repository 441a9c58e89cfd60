-- ===== src/Lib.antt =====
-- Verification of the core of margo, the C library that binds Mercury (RPC) to Argobots (threads).
--
-- The program's parts and the modules that model them:
--
-- * src/margo-bulk-pool.c, BulkPool: pools of registered buffers, as the stack of free handles in
--   the array `bulks`, and sets of pools of growing sizes. `pool_create` is margo_bulk_pool_create,
--   with `fail` for its label err, `bp_get`, `bp_release`, `pool_get`, `pool_tryget`,
--   `pool_release` and `pool_destroy` are the functions of those names, and `poolset_create`,
--   `poolset_get`, `poolset_tryget`, `poolset_release`, `poolset_destroy` those of
--   margo_bulk_poolset. BulkPool.Lending follows a pool through any sequence of calls.
-- * src/margo-efirst-pool.c, EfirstPool: the Argobots pool that runs the earliest unit first, as a
--   binary heap in an array and a FIFO list of units that were switched too often. `up_loop` and
--   `down_loop` are the loops of queue_push_prio and queue_pop_prio.
-- * src/margo-prio-pool.c, PrioPool: the Argobots pool of two circular lists, in the memory of their
--   units. PrioPool.Service follows it through any sequence of pushes and pops.
-- * src/margo-timer.c, Timer: timers in a list sorted by expiration, which `check_timers`
--   (__margo_check_timers) fires. `timer_queue` is __margo_timer_queue.
-- * src/mochi-arena.c, Arena: objects of one size, with the free list in their own memory.
-- * src/margo-handle-cache.c, HandleCache: Mercury handles kept for reuse. `cache_get` and
--   `cache_put` are __margo_handle_cache_get and __margo_handle_cache_put.
-- * src/margo-logging.c, Logging: the level of the process and of instances, and the loggers.
-- * src/margo-core.c, Shutdown: the word `shutdown_state`, with the request to finalize and the count
--   of pending operations, as steps of threads in any order.
-- * src/margo-id.h, RpcId: how an RPC id holds a hash and a provider id.
--
-- * src/margo-abt-config.c, AbtConfig: the arrays of pools and of execution streams. `Json` has the
--   checks of a configuration (`pool_validate_json` is __margo_abt_pool_validate_json, and so on),
--   `Pools` and `Xstreams` make and destroy the entries, `Arrays` adds and removes them
--   (`add_pool_from_json` is __margo_abt_add_pool_from_json, and so on), `Names` makes names up.
--   `count` is the loop that counts a stream in or out of the pools of its scheduler.
--   `Init` fills the arrays from a configuration and empties them (`abt_init_from_json` is
--   __margo_abt_init_from_json, `abt_destroy` is __margo_abt_destroy). `Destroy` and `Checked` have
--   theorems on the emptying and on the checks; AbtConfig.Lifetime follows the arrays through any
--   sequence of operations.
-- * src/margo-config.c, Config: the interface to these arrays. `find`, `ref_incr`, `ref_count` and
--   `release` are what the functions by handle, name and index share, for pools and streams alike;
--   Config.Calls has the functions one by one, Config.Instance those that add and remove.
-- * src/margo-init.c, src/margo-globals.c, Process: the variables that the instances of a process
--   share. `abt_up` and `abt_down` are what __margo_abt_init_from_json and __margo_abt_destroy do to
--   them, `init_ext` what margo_init_ext does, with a parent or without, by the stage at which it ends,
--   and `cleaned_up` what margo_cleanup does.
-- * src/margo-init.c, PoolChoice: the part of margo_init_ext that finds or makes the progress pool and
--   the pool for RPCs. The object that is made up for a stream of a pool is a function of the index of
--   the pool.
-- * src/margo-core.c, Callbacks, Rpcs, Lifecycle: the callbacks of the finalization, with a stack for
--   every owner; the registration of RPCs and their references to pools; the references to an
--   instance and the threads that wait for its end. The end of margo_finalize is two steps, `drop` and
--   `finalize_flagged`; a release is one, `instance_release`, made up of `drop` and `release_test`.
--
-- Registry has the operations on arrays of entries that AbtConfig and Config share, with totals over
-- them. Config and Rpcs work on the entries of AbtConfig.
--
-- Base has the shared types, tests, machine words, memory, bits and lists of distinct nodes; Mercury
-- has the return codes. The parts meet in the instance: RPCs take handles from the cache, run in the
-- Argobots pools and wait with timers; each part keeps a state of its own, so it is modelled alone, but
-- for the arrays of pools.
--
-- Code of other projects is a parameter: a JSON value is one of a type with the accessors that margo
-- uses (`Json`); what Argobots knows of its streams is a record of functions (`Argobots`), so the pools
-- of a scheduler do not change, and what its calls make during one operation another (`Makers`); Mercury and Argobots calls return what an argument says,
-- the allocators give an address or fail, the hash of src/uthash.h is a function, and the lists of
-- src/utlist.h are records of operations (`Dl`, `Ll`) with their documented laws (`DlLaws`,
-- `LlLaws`), which the tests fill with plain lists.
--
-- Conventions: a pointer is a number, 0 is null, and a struct in shared memory is a map from
-- addresses. Words of w bits are numbers with the wrap-around written out; the signed counter `cnt`
-- of the priority pool is taken to wrap around at 32 bits. Times of timers are whole numbers of one
-- unit. An operation under a mutex is one step; a wait on a condition variable is an outcome, or a
-- second function from the wait on. Loops over arrays and heaps recurse on fuel: `up_loop` and
-- `down_loop` get the size of the heap, the loops over timers the number of timers, and the theorems
-- show that this is enough.
--
-- Names: text is compared as strcmp does; ABT_POOL_NULL and ABT_XSTREAM_NULL are null; the copy of a text
-- that is not a step of its own in the model is taken to succeed, and the memory that an operation
-- needs is one flag. A capacity is a number without a bound. The search for an unused name recurses on
-- fuel, which is one more than the number of entries, and a theorem shows that this is enough.
--
-- Not modelled: of margo-core.c the forwarding of RPCs, the progress loop, the addresses and the order
-- in margo_cleanup; of the Argobots configuration the printing; of margo-init.c the checks of the
-- configuration and the building of the instance; the Mercury configuration, monitoring,
-- identities, the plumber, the shims and the vendored headers; inside the modelled files, the
-- functions that only free a struct or fill a table of functions.
pub mod Base
pub mod RpcId
pub mod Mercury
pub mod BulkPool
pub mod EfirstPool
pub mod PrioPool
pub mod Timer
pub mod Arena
pub mod HandleCache
pub mod Logging
pub mod Shutdown
pub mod Registry
pub mod AbtConfig
pub mod Config
pub mod Callbacks
pub mod Rpcs
pub mod Lifecycle
pub mod Process
pub mod PoolChoice
