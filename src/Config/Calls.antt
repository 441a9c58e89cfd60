-- ===== src/Config/Calls.antt =====
-- src/margo-config.c: the functions of the interface, one by one. The instance is the list of its
-- entries, none where it is null.
use Prim.Native.String.{String}
use mochi_margo.Mercury.{HgReturn}
use mochi_margo.Base.{ℕ, Option, List}
use mochi_margo.AbtConfig.Entries.{PoolEntry, XstreamEntry}
use mochi_margo.Config.Defs.{
  pool_slot, xstream_slot, by_handle, by_name, by_index, LockEvent, Info, find, ref_count, ref_incr,
  release,
}

unfoldable pub margo_find_pool_by_handle :
    Option (List PoolEntry) → ℕ → HgReturn × Option Info × List LockEvent
unfolding find
margo_find_pool_by_handle mid h = find pool_slot mid (by_handle h)

unfoldable pub margo_find_pool_by_name :
    Option (List PoolEntry) → Option String → HgReturn × Option Info × List LockEvent
unfolding find
margo_find_pool_by_name mid s = find pool_slot mid (by_name s)

unfoldable pub margo_find_pool_by_index :
    Option (List PoolEntry) → ℕ → HgReturn × Option Info × List LockEvent
unfolding find
margo_find_pool_by_index mid i = find pool_slot mid (by_index i)

unfoldable pub pool_ref_incr_by_handle :
    Option (List PoolEntry) → ℕ → HgReturn × Option (List PoolEntry) × List LockEvent
unfolding ref_incr
pool_ref_incr_by_handle mid h = ref_incr pool_slot mid (by_handle h)

unfoldable pub pool_ref_incr_by_name :
    Option (List PoolEntry) → Option String → HgReturn × Option (List PoolEntry) × List LockEvent
unfolding ref_incr
pool_ref_incr_by_name mid s = ref_incr pool_slot mid (by_name s)

unfoldable pub pool_ref_incr_by_index :
    Option (List PoolEntry) → ℕ → HgReturn × Option (List PoolEntry) × List LockEvent
unfolding ref_incr
pool_ref_incr_by_index mid i = ref_incr pool_slot mid (by_index i)

unfoldable pub pool_ref_count_by_handle :
    Option (List PoolEntry) → ℕ → HgReturn × Option ℕ × List LockEvent
unfolding ref_count
pool_ref_count_by_handle mid h = ref_count pool_slot mid (by_handle h)

unfoldable pub pool_ref_count_by_name :
    Option (List PoolEntry) → Option String → HgReturn × Option ℕ × List LockEvent
unfolding ref_count
pool_ref_count_by_name mid s = ref_count pool_slot mid (by_name s)

unfoldable pub pool_ref_count_by_index :
    Option (List PoolEntry) → ℕ → HgReturn × Option ℕ × List LockEvent
unfolding ref_count
pool_ref_count_by_index mid i = ref_count pool_slot mid (by_index i)

unfoldable pub pool_release_by_handle :
    Option (List PoolEntry) → ℕ → HgReturn × Option (List PoolEntry) × List LockEvent
unfolding release
pool_release_by_handle mid h = release pool_slot mid (by_handle h)

unfoldable pub pool_release_by_name :
    Option (List PoolEntry) → Option String → HgReturn × Option (List PoolEntry) × List LockEvent
unfolding release
pool_release_by_name mid s = release pool_slot mid (by_name s)

unfoldable pub pool_release_by_index :
    Option (List PoolEntry) → ℕ → HgReturn × Option (List PoolEntry) × List LockEvent
unfolding release
pool_release_by_index mid i = release pool_slot mid (by_index i)

unfoldable pub margo_find_xstream_by_handle :
    Option (List XstreamEntry) → ℕ → HgReturn × Option Info × List LockEvent
unfolding find
margo_find_xstream_by_handle mid h = find xstream_slot mid (by_handle h)

unfoldable pub margo_find_xstream_by_name :
    Option (List XstreamEntry) → Option String → HgReturn × Option Info × List LockEvent
unfolding find
margo_find_xstream_by_name mid s = find xstream_slot mid (by_name s)

unfoldable pub margo_find_xstream_by_index :
    Option (List XstreamEntry) → ℕ → HgReturn × Option Info × List LockEvent
unfolding find
margo_find_xstream_by_index mid i = find xstream_slot mid (by_index i)

unfoldable pub xstream_ref_incr_by_handle :
    Option (List XstreamEntry) → ℕ → HgReturn × Option (List XstreamEntry) × List LockEvent
unfolding ref_incr
xstream_ref_incr_by_handle mid h = ref_incr xstream_slot mid (by_handle h)

unfoldable pub xstream_ref_incr_by_name :
    Option (List XstreamEntry)
    → Option String
    → HgReturn × Option (List XstreamEntry) × List LockEvent
unfolding ref_incr
xstream_ref_incr_by_name mid s = ref_incr xstream_slot mid (by_name s)

unfoldable pub xstream_ref_incr_by_index :
    Option (List XstreamEntry) → ℕ → HgReturn × Option (List XstreamEntry) × List LockEvent
unfolding ref_incr
xstream_ref_incr_by_index mid i = ref_incr xstream_slot mid (by_index i)

unfoldable pub xstream_ref_count_by_handle :
    Option (List XstreamEntry) → ℕ → HgReturn × Option ℕ × List LockEvent
unfolding ref_count
xstream_ref_count_by_handle mid h = ref_count xstream_slot mid (by_handle h)

unfoldable pub xstream_ref_count_by_name :
    Option (List XstreamEntry) → Option String → HgReturn × Option ℕ × List LockEvent
unfolding ref_count
xstream_ref_count_by_name mid s = ref_count xstream_slot mid (by_name s)

unfoldable pub xstream_ref_count_by_index :
    Option (List XstreamEntry) → ℕ → HgReturn × Option ℕ × List LockEvent
unfolding ref_count
xstream_ref_count_by_index mid i = ref_count xstream_slot mid (by_index i)

unfoldable pub xstream_release_by_handle :
    Option (List XstreamEntry) → ℕ → HgReturn × Option (List XstreamEntry) × List LockEvent
unfolding release
xstream_release_by_handle mid h = release xstream_slot mid (by_handle h)

unfoldable pub xstream_release_by_name :
    Option (List XstreamEntry)
    → Option String
    → HgReturn × Option (List XstreamEntry) × List LockEvent
unfolding release
xstream_release_by_name mid s = release xstream_slot mid (by_name s)

unfoldable pub xstream_release_by_index :
    Option (List XstreamEntry) → ℕ → HgReturn × Option (List XstreamEntry) × List LockEvent
unfolding release
xstream_release_by_index mid i = release xstream_slot mid (by_index i)
