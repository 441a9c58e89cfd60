-- ===== src/Rpcs/Tests.antt =====
-- src/margo-core.c: the theorems at a concrete instance.
use mochi_margo.Mercury.{success}
use mochi_margo.Base.{
  ℕ, zero, suc, ◌+◌, ◌<◌, ◌≡◌, refl, true, false, null, none, some, [], ◌∷◌, get_elem?, arith,
}
use mochi_margo.Registry.Defs.{find_first}
use mochi_margo.AbtConfig.Entries.{PoolEntry, find_pool_by_handle}
use mochi_margo.Rpcs.Defs.{
  RpcData, Registrar, Results, registered_data, register_internal, provider_register_name,
  deregister,
}
use mochi_margo.Rpcs.Laws.{deregister-provider_register_name, second_pool_keeps_reference, refs}

abbrev pool_at : ℕ → ℕ → PoolEntry
pool_at pool count = record {
  name = "p";
  pool = pool;
  kind = "fifo_wait";
  access = none;
  refcount = count;
  num_xstreams = 0;
  margo_free_flag = true;
  used_by_primary = false;
}

abbrev ping : RpcData
ping = record {
  id = 65536;
  pool = 7;
  rpc_name = some "ping";
  user_data = null;
  user_free_callback = null;
}

-- RPC 65536 runs in pool 7.
abbrev mid : Registrar
mid = record {
  rpc_pool = 7;
  pools = pool_at 7 1 ∷ pool_at 8 0 ∷ [];
  rpc_data = ping ∷ [];
  registered_rpcs = 65536 ∷ [];
  num_registered_rpcs = 1;
  freed = [];
}

abbrev all_well : Results
all_well = record {
  register = success;
  register_data = success;
  deregister = success;
  memory = true;
}

few : (i : ℕ) (p : PoolEntry) → get_elem? mid.pools i ≡ some p → p.refcount + 1 < 4294967296
few zero p e = ground (arith, e)
few (suc zero) p e = ground (arith, e)
few (suc (suc i)) p e = absurd (ground (arith, e))

deregister-provider_register_name_example :
    ((provider_register_name all_well true mid (some "pong") 131072 null).0 ≡ 131072)
    × (deregister all_well
          (provider_register_name all_well true mid (some "pong") 131072 null).1
          131072
        ≡ (success, record mid { registered_rpcs = 131072 ∷ 65536 ∷ []; num_registered_rpcs = 2 }))
unfolding registered_data
deregister-provider_register_name_example =
    deregister-provider_register_name all_well mid (some "pong") 131072 null (omega arith) refl refl
      refl refl refl (λ i p e. omega (arith, few i p e))

second_pool_keeps_reference_example :
    refs 8
      (deregister all_well (register_internal all_well mid (some "ping") 65536 8).1 65536).1.pools
    ≡ refs 8 mid.pools + 1
unfolding registered_data find_pool_by_handle find_first
second_pool_keeps_reference_example =
    second_pool_keeps_reference all_well mid (some "ping") 65536 8 1 ping refl refl (omega arith)
      (omega arith) refl few
