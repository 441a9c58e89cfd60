-- ===== src/AbtConfig/Pools.antt =====
-- src/margo-abt-config.c: the entry of a pool, from a checked configuration or a pool that exists.
use Prim.Native.String.{String}
use mochi_margo.Base.Text.{same_text}
use mochi_margo.Base.{
  ℕ, suc, Bool, true, false, ◌&&◌, not, ◌==◌, if◌then◌else◌, null, Option, none, some, List, ◌∷◌,
  length, map,
}
use mochi_margo.AbtConfig.Json.{Json, get}
use mochi_margo.AbtConfig.Entries.{PoolEntry}
use mochi_margo.AbtConfig.Names.{generate_unused_name}

-- `ABT_pool_access`, and the kinds of `ABT_pool_create_basic` that margo names.
pub data Access : Type 0 where
  priv spsc mpsc spmc mpmc : Access

pub data BasicKind : Type 0 where
  fifo_wait fifo randws : BasicKind

-- What Argobots is asked for: a basic pool, or one of the two pools that margo implements.
pub data Request : Type 0 where
  basic : BasicKind → Access → Request
  prio_wait earliest_first : Request

abbrev pub access_of : String → Access
access_of a =
    if same_text a "private"
    then priv
    else if same_text a "mpmc"
    then mpmc
    else if same_text a "spsc"
    then spsc
    else if same_text a "mpsc"
    then mpsc
    else if same_text a "spmc"
    then spmc
    else mpmc

-- The request for a kind, none where no pool has the kind; randws came with Argobots 2.0.
abbrev pub request : (before_two : Bool) → String → Access → Option Request
request before_two kind access =
    if same_text kind "fifo_wait"
    then some (basic fifo_wait access)
    else if same_text kind "fifo"
    then some (basic fifo access)
    else if not before_two && same_text kind "randws"
    then some (basic randws access)
    else if same_text kind "prio_wait"
    then some prio_wait
    else if same_text kind "earliest_first"
    then some earliest_first
    else none

-- A call of Argobots for a request, none where there is nothing to ask for.
abbrev pub ask : (Request → Option ℕ) → Option Request → Option ℕ
ask create none = none
ask create (some r) = create r

abbrev pub pool_names : List PoolEntry → List String
pool_names pools = map (λ p. p.name) pools

module _ (J : Json) where
  -- `json_object_object_get_string_or`
  abbrev pub text_or : Option J.Value → String → String
  text_or none fallback = fallback
  text_or (some v) fallback = if J.is_string v then J.text v else fallback

  -- The text of a field, if it is there.
  abbrev pub text_of : Option J.Value → Option String
  text_of none = none
  text_of (some v) = some (J.text v)

abbrev pub or_else : Option String → String → String
or_else none fallback = fallback
or_else (some s) fallback = s

-- The name in the configuration, or one made up behind the entries there are.
unfoldable pub name_or_unused :
    (numbered : ℕ → String) → List String → Option String → Option String
name_or_unused numbered names none =
    generate_unused_name numbered (suc (length names)) names (length names)
name_or_unused numbered names (some name) = some name

-- The entry of a pool that Argobots made; no entry where the copy of a text or the call failed.
abbrev pub pool_entry :
    (copied : Bool) → (kind access : String) → Option ℕ → Option String → Option PoolEntry
pool_entry true kind access (some pool) (some name) = some (record {
  name = name;
  pool = pool;
  kind = kind;
  access = some access;
  refcount = 0;
  num_xstreams = 0;
  margo_free_flag = true;
  used_by_primary = false;
})
pool_entry _ kind access _ _ = none

-- `__margo_abt_pool_init_from_json` on a zeroed entry: `copied` is whether memory is left for its
-- texts, `create` what ABT_pool_create_basic or ABT_pool_create gives.
unfoldable pub pool_init_from_json :
    (J : Json) (numbered : ℕ → String)
    → (before_two copied : Bool) → (create : Request → Option ℕ) → List PoolEntry
    → Option J.Value
    → Option PoolEntry
pool_init_from_json J numbered before_two copied create pools config =
    let kind = text_or J (get J config "kind") "fifo_wait" in
    let access = or_else (text_of J (get J config "access")) "mpmc" in
    let name = name_or_unused numbered (pool_names pools) (text_of J (get J config "name")) in
    pool_entry copied kind access (ask create (request before_two kind (access_of access))) name

-- The entry of a pool that margo did not make.
abbrev pub external_entry : ℕ → Option String → Option PoolEntry
external_entry pool none = none
external_entry pool (some name) = some (record {
  name = name;
  pool = pool;
  kind = "external";
  access = none;
  refcount = 0;
  num_xstreams = 0;
  margo_free_flag = false;
  used_by_primary = false;
})

-- `__margo_abt_pool_init_external`
unfoldable pub pool_init_external :
    (numbered : ℕ → String) → List PoolEntry → Option String → ℕ → Option PoolEntry
pool_init_external numbered pools name pool =
    external_entry pool (name_or_unused numbered (pool_names pools) name)

-- `__margo_abt_pool_destroy`: the pools given back to Argobots, where the entry's own may be one.
unfoldable pub pool_destroy : PoolEntry → List ℕ → List ℕ
pool_destroy p freed =
    if p.margo_free_flag && not p.used_by_primary && not (p.pool == null)
    then p.pool ∷ freed
    else freed
