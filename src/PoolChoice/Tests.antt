-- ===== src/PoolChoice/Tests.antt =====
-- src/margo-init.c: the theorem at concrete arrays.
use Prim.Native.String.{String}
use mochi_margo.Base.{ℕ, ◌≡◌, ◌≢◌, refl, Bool, true, false, null, none, some, [], ◌∷◌}
use mochi_margo.Registry.Defs.{find_first}
use mochi_margo.AbtConfig.Json.{Json}
use mochi_margo.AbtConfig.Entries.{PoolEntry, Abt, find_pool_by_name, find_pool_by_handle}
use mochi_margo.AbtConfig.Names.{generate_unused_name}
use mochi_margo.AbtConfig.Pools.{pool_init_external, name_or_unused}
use mochi_margo.AbtConfig.Xstreams.{Argobots, Makers, handle_at}
use mochi_margo.AbtConfig.Arrays.{add_external_pool}
use mochi_margo.PoolChoice.Defs.{threads, Wishes, choose_progress, choose_rpc, choose_pools}
use mochi_margo.PoolChoice.Chosen.{external_pools_chosen}

abbrev numbered : ℕ → String
numbered n = "__pool__"

abbrev empty_json : Json
empty_json = record {
  Value = Bool;
  is_object = λ v. true;
  is_string = λ v. false;
  is_int = λ v. false;
  is_array = λ v. false;
  field = λ v key. none;
  text = λ v. "";
  integer = λ v. none;
  elements = λ v. [];
}

abbrev world : Argobots
world = record { main_sched = λ x. none; sched_pools = λ s. none }

abbrev makers : Makers
makers = record {
  create_pool = λ r. some 8;
  create_sched = λ kind pools. some 3;
  create_xstream = λ s. some 5;
  self = some 1;
  set_main_sched = λ x s. true;
}

abbrev primary_entry : PoolEntry
primary_entry = record {
  name = "__primary__";
  pool = 7;
  kind = "fifo_wait";
  access = some "mpmc";
  refcount = 0;
  num_xstreams = 1;
  margo_free_flag = false;
  used_by_primary = true;
}

abbrev arrays : Abt
arrays = record {
  pools = primary_entry ∷ [];
  pools_cap = 4;
  xstreams = [];
  xstreams_cap = 2;
  freed = [];
  joined = [];
}

-- The caller gives pool 9 for progress and the primary pool for RPCs.
abbrev wishes : Wishes Bool
wishes = record {
  progress_pool = 9;
  rpc_pool = 7;
  jprogress_pool = none;
  jrpc_pool = none;
  use_progress_thread = false;
  rpc_thread_count = threads 0;
}

abbrev external_entry_nine : PoolEntry
external_entry_nine = record {
  name = "__pool__";
  pool = 9;
  kind = "external";
  access = none;
  refcount = 0;
  num_xstreams = 0;
  margo_free_flag = false;
  used_by_primary = false;
}

abbrev with_nine : Abt
with_nine = record arrays { pools = primary_entry ∷ external_entry_nine ∷ [] }

chosen_here :
    choose_pools empty_json true
      (λ i. true)
      numbered
      false
      true
      true
      world
      (λ i. makers)
      wishes
      arrays
    ≡ some (1, 0, with_nine)
unfolding choose_pools choose_progress choose_rpc add_external_pool pool_init_external
    find_pool_by_name find_pool_by_handle find_first generate_unused_name name_or_unused
chosen_here = refl

external_pools_chosen_example :
    (9 ≢ null → handle_at with_nine.pools (some 1) ≡ some 9)
    × (7 ≢ null → handle_at with_nine.pools (some 0) ≡ some 7)
external_pools_chosen_example =
    external_pools_chosen empty_json true (λ i. true) numbered false true true world (λ i. makers)
      wishes arrays (1, 0, with_nine) chosen_here
