-- ===== src/AbtConfig/Xstreams.antt =====
-- src/margo-abt-config.c: the entry of an execution stream and its scheduler, and the numbers of
-- streams that the entries of the pools keep. What Argobots answers is a parameter.
use Prim.Native.String.{String}
use mochi_margo.Base.Text.{same_text}
use mochi_margo.Base.{
  ℕ, ◌+◌, ◌-◌, ◌%◌, ◌^◌, Bool, true, false, ◌&&◌, ◌||◌, ◌==◌, if◌then◌else◌, null, Option, none,
  some, List, [], ◌∷◌, map, get_elem?,
}
use mochi_margo.Registry.Defs.{find_first, modify_at}
use mochi_margo.AbtConfig.Json.{Json, get, elements_of}
use mochi_margo.AbtConfig.Entries.{PoolEntry, XstreamEntry, find_pool_by_handle}
use mochi_margo.AbtConfig.Pools.{Request, text_or, text_of, name_or_unused}

-- The schedulers of `ABT_sched_create_basic` that margo names.
pub data SchedKind : Type 0 where
  default basic prio randws basic_wait : SchedKind

abbrev pub sched_kind : String → SchedKind
sched_kind t =
    if same_text t "default"
    then default
    else if same_text t "basic"
    then basic
    else if same_text t "prio"
    then prio
    else if same_text t "randws"
    then randws
    else if same_text t "basic_wait"
    then basic_wait
    else default

-- What Argobots knows of the streams there are: the main scheduler of a stream, and the pools of a
-- scheduler, by ABT_sched_get_num_pools and ABT_sched_get_pools. None is an error.
pub record Argobots : Type 0 where
  pub main_sched : ℕ → Option ℕ
  pub sched_pools : ℕ → Option (List (Option ℕ))

-- What the calls that make something give during one operation; none is an error.
pub record Makers : Type 0 where
  pub create_pool : Request → Option ℕ
  pub create_sched : SchedKind → List ℕ → Option ℕ
  pub create_xstream : (sched : ℕ) → Option ℕ
  pub self : Option ℕ
  pub set_main_sched : (xstream sched : ℕ) → Bool

-- The loops that count a stream in, and out, of the pools of its scheduler: they stop, with false,
-- at the first pool that is not given or not registered.
abbrev pub one_more : (primary : Bool) → PoolEntry → PoolEntry
one_more primary p = record p {
  num_xstreams = (p.num_xstreams + 1) % 2 ^ 32;
  used_by_primary = p.used_by_primary || primary;
}

abbrev pub one_less : PoolEntry → PoolEntry
one_less p = record p { num_xstreams = (p.num_xstreams + (2 ^ 32 - 1)) % 2 ^ 32 }

-- The rest of a loop, where the pool was found.
abbrev pub go_on : Option ℕ → List PoolEntry → (ℕ → List PoolEntry × Bool) → List PoolEntry × Bool
go_on none pools rest = (pools, false)
go_on (some i) pools rest = rest i

module _ (change : PoolEntry → PoolEntry) where
  unfoldable pub count : List PoolEntry → List (Option ℕ) → List PoolEntry × Bool
  count pools [] = (pools, true)
  count pools (none ∷ hs) = (pools, false)
  count pools (some h ∷ hs) =
      go_on (find_pool_by_handle pools h) pools (λ i. count (modify_at i change pools) hs)

  abbrev pub count_all : List PoolEntry → Option (List (Option ℕ)) → List PoolEntry × Bool
  count_all pools none = (pools, false)
  count_all pools (some hs) = count pools hs

-- The pools of the main scheduler of a stream.
abbrev pub pools_of : Argobots → Option ℕ → Option (List (Option ℕ))
pools_of A none = none
pools_of A (some sched) = A.sched_pools sched

-- `__margo_abt_xstream_destroy`: the pools, and the streams that were joined and freed.
unfoldable pub xstream_destroy :
    Argobots → XstreamEntry → List PoolEntry → List ℕ → List PoolEntry × List ℕ
unfolding count
xstream_destroy A x pools joined = if x.xstream == null then (pools, joined) else (
  (count_all one_less pools (pools_of A (A.main_sched x.xstream))).0,
  if x.margo_free_flag then x.xstream ∷ joined else joined,
)

-- The handle of the pool at an index that may be out of range.
abbrev pub pool_in : Option PoolEntry → Option ℕ
pool_in none = none
pool_in (some p) = some p.pool

abbrev pub handle_at : List PoolEntry → Option ℕ → Option ℕ
handle_at pools none = none
handle_at pools (some i) = pool_in (get_elem? pools i)

abbrev pub both : Option ℕ → Option (List ℕ) → Option (List ℕ)
both (some h) (some hs) = some (h ∷ hs)
both _ _ = none

module _ (J : Json) where
  -- The pools that a scheduler is to have, none where a reference is not to a pool there is.
  abbrev pub referred : List PoolEntry → J.Value → Option ℕ
  referred pools v =
      if J.is_int v
      then handle_at pools (J.integer v)
      else handle_at pools (find_first (λ p. same_text p.name (J.text v)) pools)

  abbrev pub all_referred : List PoolEntry → List J.Value → Option (List ℕ)
  all_referred pools [] = some []
  all_referred pools (v ∷ vs) = both (referred pools v) (all_referred pools vs)

  abbrev pub create_with : (List ℕ → Option ℕ) → Option (List ℕ) → Option ℕ
  create_with create none = none
  create_with create (some handles) = create handles

  -- `__margo_abt_sched_init_from_json`: the type, and the scheduler.
  unfoldable pub sched_init_from_json : Makers → List PoolEntry → Option J.Value → String × Option ℕ
  sched_init_from_json M pools config =
      let type = text_or J (get J config "type") "basic_wait" in
      let handles = all_referred pools (elements_of J (get J config "pools")) in
      (type, create_with (M.create_sched (sched_kind type)) handles)

-- What the initialisation of a stream leaves: its entry, unless it failed, the pools, and the
-- streams that were joined and freed.
pub record Made : Type 0 where
  pub entry : Option XstreamEntry
  pub pools : List PoolEntry
  pub joined : List ℕ

abbrev pub new_entry :
    (name type : String) → (xstream : ℕ) → (margo_free_flag : Bool) → XstreamEntry
new_entry name type xstream flag = record {
  name = name;
  xstream = xstream;
  refcount = 0;
  sched_type = type;
  margo_free_flag = flag;
}

abbrev pub destroyed : List PoolEntry × List ℕ → Made
destroyed d = record { entry = none; pools = d.0; joined = d.1 }

-- The entry is counted in, or destroyed where that fails.
unfoldable pub counted :
    Argobots
    → XstreamEntry
    → (primary : Bool) → List PoolEntry
    → List ℕ
    → Option (List (Option ℕ))
    → Made
unfolding xstream_destroy count
counted A x primary pools joined hs =
    let up = count_all (one_more primary) pools hs in
    if up.1
    then record { entry = some x; pools = up.0; joined = joined }
    else destroyed (xstream_destroy A x up.0 joined)

-- The handle after a call that may fail, which leaves null.
abbrev pub or_null : Option ℕ → ℕ
or_null none = null
or_null (some x) = x

-- The stream with its new scheduler. The result of ABT_xstream_create is not looked at.
abbrev pub start_primary :
    Argobots → Makers → (type : String) → (sched : ℕ) → Option ℕ → List PoolEntry → List ℕ → Made
start_primary A M type sched none pools joined = record {
  entry = none;
  pools = pools;
  joined = joined;
}
start_primary A M type sched (some self) pools joined =
    let x = new_entry "__primary__" type self false in
    if M.set_main_sched self sched
    then counted A x true pools joined (A.sched_pools sched)
    else destroyed (xstream_destroy A x pools joined)

abbrev pub start :
    Argobots → Makers → (name type : String) → Option ℕ → List PoolEntry → List ℕ → Made
start A M name type none pools joined = record { entry = none; pools = pools; joined = joined }
start A M name type (some sched) pools joined =
    if same_text name "__primary__"
    then start_primary A M type sched M.self pools joined
    else counted A (new_entry name type (or_null (M.create_xstream sched)) true) false pools joined
        (A.sched_pools sched)

abbrev pub start_named :
    Argobots
    → Makers
    → (copied : Bool) → Option String
    → String × Option ℕ
    → List PoolEntry
    → List ℕ
    → Made
start_named A M true (some name) sched pools joined = start A M name sched.0 sched.1 pools joined
start_named A M _ _ sched pools joined = record { entry = none; pools = pools; joined = joined }

abbrev pub xstream_names : List XstreamEntry → List String
xstream_names xstreams = map (λ x. x.name) xstreams

-- `__margo_abt_xstream_init_from_json` on a zeroed entry: `copied` is whether memory is left for
-- its texts and arrays. The affinity and the CPU go to Argobots and change nothing here.
unfoldable pub xstream_init_from_json :
    (J : Json) (numbered : ℕ → String)
    → Argobots
    → Makers
    → (copied : Bool) → List XstreamEntry
    → List PoolEntry
    → List ℕ
    → Option J.Value
    → Made
xstream_init_from_json J numbered A M copied xstreams pools joined config =
    let name = name_or_unused numbered (xstream_names xstreams) (text_of J (get J config "name")) in
    let sched = sched_init_from_json J M pools (get J config "scheduler") in
    start_named A M copied name sched pools joined

-- The loop of `__margo_abt_sched_init_external`: whether every pool is given and registered.
abbrev pub is_some : Option ℕ → Bool
is_some none = false
is_some (some i) = true

abbrev pub all_registered : List PoolEntry → List (Option ℕ) → Bool
all_registered pools [] = true
all_registered pools (none ∷ hs) = false
all_registered pools (some h ∷ hs) =
    is_some (find_pool_by_handle pools h) && all_registered pools hs

abbrev pub sched_init_external : List PoolEntry → Option (List (Option ℕ)) → Bool
sched_init_external pools none = false
sched_init_external pools (some hs) = all_registered pools hs

-- strcmp of the name that was given, which faults where none was: none.
abbrev pub counted_external :
    Argobots
    → XstreamEntry
    → Option String
    → List PoolEntry
    → List ℕ
    → Option (List (Option ℕ))
    → Option Made
counted_external A x none pools joined hs = none
counted_external A x (some given) pools joined hs =
    some (counted A x (same_text given "__primary__") pools joined hs)

abbrev pub register :
    Argobots → (given name : Option String) → ℕ → List PoolEntry → List ℕ → Option Made
register A given none xstream pools joined = none
register A given (some name) xstream pools joined =
    let x = new_entry name "external" xstream false in
    let hs = pools_of A (A.main_sched xstream) in
    if sched_init_external pools hs
    then counted_external A x given pools joined hs
    else some (destroyed (xstream_destroy A x pools joined))

-- `__margo_abt_xstream_init_external`; none is a fault.
unfoldable pub xstream_init_external :
    (numbered : ℕ → String)
    → Argobots
    → List XstreamEntry
    → List PoolEntry
    → List ℕ
    → Option String
    → ℕ
    → Option Made
xstream_init_external numbered A xstreams pools joined name xstream =
    register A name (name_or_unused numbered (xstream_names xstreams) name) xstream pools joined
