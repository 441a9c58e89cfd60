-- ===== src/Config/Tests.antt =====
-- src/margo-config.c: the theorems at concrete pools.
use Prim.Native.String.{String}
use mochi_margo.Mercury.{success, permission}
use mochi_margo.Base.{
  ℕ, zero, suc, ◌+◌, ◌<◌, ◌≡◌, inl, refl, true, false, null, Option, some, List, [], ◌∷◌, get_elem?,
  arith,
}
use mochi_margo.Registry.Defs.{find_first, modify_at}
use mochi_margo.AbtConfig.Entries.{PoolEntry, Abt}
use mochi_margo.AbtConfig.Arrays.{remove_pool}
use mochi_margo.Config.Defs.{
  pool_slot, by_handle, by_name, Info, both_ways, locate, ref_count, ref_incr, release,
}
use mochi_margo.Config.Laws.{ref_incr-release}
use mochi_margo.Config.Defs.{lock, unlock}
use mochi_margo.Config.Instance.{Instance, progress_pool, remove_pool_by_index}
use mochi_margo.Config.Pools.{
  referenced_pool_stays, own_pools_stay, moved_progress_pool, of_index, remove, registered,
}

abbrev pool_at : String → ℕ → ℕ → PoolEntry
pool_at name pool refs = record {
  name = name;
  pool = pool;
  kind = "fifo_wait";
  access = some "mpmc";
  refcount = refs;
  num_xstreams = 0;
  margo_free_flag = true;
  used_by_primary = false;
}

abbrev two_pools : List PoolEntry
two_pools = pool_at "a" 7 0 ∷ pool_at "b" 8 1 ∷ []

abbrev referenced : List PoolEntry
referenced = pool_at "a" 7 0 ∷ pool_at "b" 8 2 ∷ []

small : (i : ℕ) (p : PoolEntry) → get_elem? two_pools i ≡ some p → p.refcount + 1 < 4294967296
small zero p e = ground (arith, e)
small (suc zero) p e = ground (arith, e)
small (suc (suc i)) p e = absurd (ground (arith, e))

ref_incr-release_example :
    (n : ℕ) × (both_ways ≡ lock ∷ unlock ∷ [])
    × (ref_count pool_slot (some two_pools) (by_name (some "b")) ≡ (success, some n, both_ways))
    × (ref_count pool_slot (some referenced) (by_name (some "b"))
        ≡ (success, some (n + 1), both_ways))
    × (release pool_slot (some referenced) (by_name (some "b"))
        ≡ (success, some two_pools, both_ways))
unfolding ref_incr locate find_first modify_at
ref_incr-release_example =
    ref_incr-release pool_slot two_pools referenced (by_name (some "b")) both_ways small refl

abbrev info_b : Info
info_b = record { index = 1; name = "b"; handle = 8 }

abbrev arrays : List PoolEntry → Abt
arrays pools = record {
  pools = pools;
  pools_cap = 4;
  xstreams = [];
  xstreams_cap = 1;
  freed = [];
  joined = [];
}

abbrev empty_size : ℕ → Option ℕ
empty_size pool = some 0

referenced_pool_stays_example :
    remove_pool empty_size (arrays referenced) 1 ≡ (permission, arrays referenced)
unfolding ref_incr locate find_first modify_at
referenced_pool_stays_example =
    referenced_pool_stays empty_size (arrays two_pools) referenced (by_handle 8) both_ways 1 small
      refl refl

-- An instance whose progress pool and pool for RPCs is the last of its pools.
abbrev mid : Instance
mid = record { abt = arrays two_pools; progress_pool_idx = 1; rpc_pool_idx = 1 }

own_pools_stay_example :
    registered 8 (remove empty_size mid (of_index 1)).1 ≡ registered 8 (some mid)
own_pools_stay_example = own_pools_stay empty_size mid (of_index 1) 8 (inl refl)

abbrev without_first : Instance
without_first = record mid { abt = record (arrays (pool_at "b" 8 1 ∷ [])) { freed = 7 ∷ [] } }

moved_progress_pool_example : progress_pool without_first ≡ null
unfolding remove_pool_by_index
moved_progress_pool_example = moved_progress_pool empty_size mid without_first 0 refl refl
