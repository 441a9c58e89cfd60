-- ===== src/Rpcs/Defs.antt =====
-- src/margo-core.c: registering and deregistering an RPC. Mercury keeps the data of an id from
-- HG_Register_data to HG_Deregister; the results of its calls are parameters. The calls of the
-- monitor change nothing.
use Prim.Native.String.{String}
use mochi_margo.Mercury.{HgReturn, success, other_error, is_success}
use mochi_margo.Base.{
  ℕ, ◌+◌, ◌-◌, ◌%◌, ◌^◌, Bool, ◌==◌, if◌then◌else◌, null, Option, none, some, List, [], ◌∷◌,
}
use mochi_margo.Registry.Defs.{modify_at}
use mochi_margo.AbtConfig.Entries.{PoolEntry, find_pool_by_handle}
use mochi_margo.Config.Defs.{pool_slot, one_ref_more}

-- `struct margo_rpc_data`, with the id that Mercury keeps it under.
pub record RpcData : Type 0 where
  pub id : ℕ
  pub pool : ℕ
  pub rpc_name : Option String
  pub user_data : ℕ
  pub user_free_callback : ℕ

-- The part of an instance that registration touches; `freed` are the addresses of user data that its
-- callback was called on, the last one first.
pub record Registrar : Type 0 where
  pub rpc_pool : ℕ
  pub pools : List PoolEntry
  pub rpc_data : List RpcData
  pub registered_rpcs : List ℕ
  pub num_registered_rpcs : ℕ
  pub freed : List ℕ

-- The results of the calls of one operation.
pub record Results : Type 0 where
  pub register : HgReturn
  pub register_data : HgReturn
  pub deregister : HgReturn
  pub memory : Bool

-- HG_Registered_data
unfoldable pub registered_data : List RpcData → ℕ → Option RpcData
registered_data [] id = none
registered_data (d ∷ ds) id = if d.id == id then some d else registered_data ds id

-- What HG_Deregister keeps.
unfoldable pub without : List RpcData → ℕ → List RpcData
without [] id = []
without (d ∷ ds) id = let rest = without ds id in if d.id == id then rest else d ∷ rest

-- `refcount--` on a word of 32 bits.
abbrev pub unreferenced : PoolEntry → PoolEntry
unreferenced p = record p { refcount = (p.refcount + (2 ^ 32 - 1)) % 2 ^ 32 }

-- A change of the entry that a search found.
abbrev pub change_found : (PoolEntry → PoolEntry) → List PoolEntry → Option ℕ → List PoolEntry
change_found change pools none = pools
change_found change pools (some i) = modify_at i change pools

unfoldable pub reference : List PoolEntry → ℕ → List PoolEntry
reference pools pool = change_found (one_ref_more pool_slot) pools (find_pool_by_handle pools pool)

unfoldable pub unreference : List PoolEntry → ℕ → List PoolEntry
unreference pools pool = change_found unreferenced pools (find_pool_by_handle pools pool)

abbrev pub counted : Registrar → (pool id : ℕ) → ℕ × Registrar
counted mid pool id = (id, record mid { pools = reference mid.pools pool })

-- The data of an id: kept where there is one, else made and handed to Mercury. The copy of a name is
-- taken to succeed.
abbrev pub with_data :
    Results → Registrar → (name : Option String) → (id pool : ℕ) → Option RpcData → ℕ × Registrar
with_data results mid name id pool (some d) = counted mid pool id
with_data results mid name id pool none =
    if results.memory
    then (if is_success results.register_data
        then counted
            (record mid {
              rpc_data =
                  record {
                    id = id;
                    pool = pool;
                    rpc_name = name;
                    user_data = null;
                    user_free_callback = null;
                  }
                  ∷ mid.rpc_data;
            })
            pool id
        else (0, mid))
    else (0, mid)

-- `margo_register_internal`: the id, or 0.
unfoldable pub register_internal :
    Results → Registrar → (name : Option String) → (id pool : ℕ) → ℕ × Registrar
unfolding registered_data reference
register_internal results mid name id pool =
    let own = if pool == null then mid.rpc_pool else pool in
    if is_success results.register
    then with_data results mid name id own (registered_data mid.rpc_data id)
    else (0, mid)

-- `margo_provider_register_name`, for the id of a name and a provider; `noted` is whether memory is
-- left for the note of the registration.
abbrev pub note_back : Registrar → ℕ × Registrar → ℕ × Registrar
note_back mid (id, after) =
    if id == 0
    then (
      0,
      record after {
        registered_rpcs = mid.registered_rpcs;
        num_registered_rpcs = mid.num_registered_rpcs;
      },
    )
    else (id, after)

unfoldable pub provider_register_name :
    Results → (noted : Bool) → Registrar → (name : Option String) → (id pool : ℕ) → ℕ × Registrar
unfolding register_internal
provider_register_name results noted mid name id pool =
    if noted
    then note_back mid (
        register_internal results
          (record mid {
            registered_rpcs = id ∷ mid.registered_rpcs;
            num_registered_rpcs = (mid.num_registered_rpcs + 1) % 2 ^ 16;
          })
          name id pool)
    else (0, mid)

-- `margo_rpc_data_free`, which Mercury calls when the data of an id goes.
abbrev pub rpc_data_free : RpcData → List ℕ → List ℕ
rpc_data_free d freed =
    if d.user_data == null
    then freed
    else if d.user_free_callback == null
    then freed
    else d.user_data ∷ freed

-- `margo_deregister` on an instance whose class is there.
abbrev pub data_gone : Registrar → ℕ → Option RpcData → Registrar
data_gone mid id none = record mid { rpc_data = without mid.rpc_data id }
data_gone mid id (some d) = record mid {
  rpc_data = without mid.rpc_data id;
  freed = rpc_data_free d mid.freed;
}

abbrev pub uncounted : Registrar → Option RpcData → Registrar
uncounted mid none = mid
uncounted mid (some d) = record mid { pools = unreference mid.pools d.pool }

unfoldable pub deregister : Results → Registrar → ℕ → HgReturn × Registrar
unfolding registered_data unreference without
deregister results mid id =
    let found = registered_data mid.rpc_data id in
    let counted_out = uncounted mid found in
    (
      results.deregister,
      if is_success results.deregister then data_gone counted_out id found else counted_out,
    )

-- `margo_register_data` and `margo_registered_data`
abbrev pub set_user_data : ℕ → ℕ → ℕ → RpcData → RpcData
set_user_data id value free d =
    if d.id == id then record d { user_data = value; user_free_callback = free } else d

abbrev pub map_data : (RpcData → RpcData) → List RpcData → List RpcData
map_data f [] = []
map_data f (d ∷ ds) = f d ∷ map_data f ds

abbrev pub replace_data : Registrar → (id value free : ℕ) → Option RpcData → HgReturn × Registrar
replace_data mid id value free none = (other_error, mid)
replace_data mid id value free (some d) = (
  success,
  record mid {
    rpc_data = map_data (set_user_data id value free) mid.rpc_data;
    freed = rpc_data_free d mid.freed;
  },
)

unfoldable pub register_data : Registrar → (id value free : ℕ) → HgReturn × Registrar
unfolding registered_data
register_data mid id value free = replace_data mid id value free (registered_data mid.rpc_data id)

abbrev pub user_data_of : Option RpcData → ℕ
user_data_of none = null
user_data_of (some d) = d.user_data

unfoldable pub user_data : Registrar → ℕ → ℕ
unfolding registered_data
user_data mid id = user_data_of (registered_data mid.rpc_data id)
