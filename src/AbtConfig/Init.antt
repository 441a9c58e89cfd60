-- ===== src/AbtConfig/Init.antt =====
-- src/margo-abt-config.c: filling the arrays from a configuration, and emptying them. What is shared
-- by the instances of a process is in Process.
use Prim.Native.String.{String}
use mochi_margo.Base.{
  ℕ, suc, ◌+◌, Bool, true, false, ◌==◌, if◌then◌else◌, null, Option, none, some, List, [], ◌∷◌,
  ◌++◌, length, get_elem?,
}
use mochi_margo.Registry.Defs.{modify_at}
use mochi_margo.AbtConfig.Json.{Json, get, elements_of}
use mochi_margo.AbtConfig.Entries.{
  PoolEntry, XstreamEntry, Abt, find_pool_by_name, find_pool_by_handle, find_xstream_by_name,
}
use mochi_margo.AbtConfig.Pools.{
  fifo_wait, mpmc, basic, pool_entry, pool_init_from_json, pool_init_external, pool_destroy,
}
use mochi_margo.AbtConfig.Xstreams.{
  Argobots, Makers, Made, basic_wait, handle_at, start_named, xstream_init_from_json,
  xstream_init_external, xstream_destroy,
}

-- The loops of `__margo_abt_destroy`.
unfoldable pub destroy_xstreams :
    Argobots → List XstreamEntry → List PoolEntry → List ℕ → List PoolEntry × List ℕ
unfolding xstream_destroy
destroy_xstreams A [] pools joined = (pools, joined)
destroy_xstreams A (x ∷ xs) pools joined =
    destroy_xstreams A xs (xstream_destroy A x pools joined).0 (xstream_destroy A x pools joined).1

unfoldable pub destroy_pools : List PoolEntry → List ℕ → List ℕ
unfolding pool_destroy
destroy_pools [] freed = freed
destroy_pools (p ∷ ps) freed = destroy_pools ps (pool_destroy p freed)

-- `__margo_abt_destroy`, but for the variables of the process.
unfoldable pub abt_destroy : Argobots → Abt → Abt
unfolding destroy_xstreams destroy_pools
abt_destroy A abt =
    let d = destroy_xstreams A abt.xstreams abt.pools abt.joined in
    record {
      pools = [];
      pools_cap = 0;
      xstreams = [];
      xstreams_cap = 0;
      freed = destroy_pools d.0 abt.freed;
      joined = d.1;
    }

-- What follows a step that may fail.
abbrev pub then_do : Bool × Abt → (Abt → Bool × Abt) → Bool × Abt
then_do (false, abt) rest = (false, abt)
then_do (true, abt) rest = rest abt

-- A new entry behind the others, where it was made.
abbrev pub keep_pool : Abt → Option PoolEntry → Bool × Abt
keep_pool abt none = (false, abt)
keep_pool abt (some p) = (true, record abt { pools = abt.pools ++ p ∷ [] })

abbrev pub keep_entry : Abt → Option XstreamEntry → Bool × Abt
keep_entry abt none = (false, abt)
keep_entry abt (some x) = (true, record abt { xstreams = abt.xstreams ++ x ∷ [] })

abbrev pub keep_xstream : Abt → Made → Bool × Abt
keep_xstream abt m = keep_entry (record abt { pools = m.pools; joined = m.joined }) m.entry

abbrev pub keep_external : Abt → Option Made → Bool × Abt
keep_external abt none = (false, abt)
keep_external abt (some m) = keep_xstream abt m

module _ (A : Argobots) (M : ℕ → Makers) (copied : Bool) where
  module _ (J : Json) (numbered : ℕ → String) (before_two : Bool) where
    -- The loops over the pools and the streams of the configuration; the calls of Argobots for the
    -- entry of a number give what `M` says of the number.
    unfoldable pub init_pools : ℕ → List J.Value → Abt → Bool × Abt
    unfolding pool_init_from_json
    init_pools i [] abt = (true, abt)
    init_pools i (v ∷ vs) abt =
        then_do
          (keep_pool abt
            (pool_init_from_json J numbered before_two copied (M i).create_pool abt.pools (some v)))
          (init_pools (suc i) vs)

    unfoldable pub init_xstreams : ℕ → List J.Value → Abt → Bool × Abt
    unfolding xstream_init_from_json
    init_xstreams i [] abt = (true, abt)
    init_xstreams i (v ∷ vs) abt =
        then_do
          (keep_xstream abt (
            xstream_init_from_json J numbered A (M i) copied abt.xstreams abt.pools abt.joined
              (some v)))
          (init_xstreams (suc i) vs)

  -- The pool "__primary__", if there is one, is the first pool of the stream "__primary__"; `main_pool`
  -- is what ABT_xstream_get_main_pools gives.
  abbrev pub same_index : Option ℕ → Option ℕ → Bool
  same_index none found = true
  same_index (some i) none = false
  same_index (some i) (some j) = i == j

  abbrev pub fits_primary : List PoolEntry → Option ℕ → Bool
  fits_primary pools none = false
  fits_primary pools (some pool) =
      same_index (find_pool_by_name pools (some "__primary__")) (find_pool_by_handle pools pool)

  abbrev pub xstream_in : Option XstreamEntry → ℕ
  xstream_in none = null
  xstream_in (some x) = x.xstream

  abbrev pub with_one : (List ℕ → Option ℕ) → Option ℕ → Option ℕ
  with_one create none = none
  with_one create (some pool) = create (pool ∷ [])

  -- The stream "__primary__" with one pool, given by its index; the pool is not margo's to free.
  abbrev pub primary_es : Makers → Abt → ℕ → Bool × Abt
  primary_es N abt i =
      let kept = record abt {
        pools = modify_at i (λ p. record p { margo_free_flag = false }) abt.pools;
      } in
      let sched = with_one (N.create_sched basic_wait) (handle_at kept.pools (some i)) in
      keep_xstream kept
        (start_named A N copied (some "__primary__") ("basic_wait", sched) kept.pools kept.joined)

  -- Where margo has set Argobots up: with the pool "__primary__" that there is, or a new one.
  abbrev pub own_primary : Makers → Abt → Option ℕ → Bool × Abt
  own_primary N abt (some i) = primary_es N abt i
  own_primary N abt none =
      then_do
        (keep_pool abt (
          pool_entry copied "fifo_wait" "mpmc" (N.create_pool (basic fifo_wait mpmc))
            (some "__primary__")))
        (λ b. primary_es N b (length abt.pools))

  -- Where Argobots ran before: the stream that calls and its pool, as external ones.
  abbrev pub external_primary : (numbered : ℕ → String) → (self self_pool : ℕ) → Abt → Bool × Abt
  external_primary numbered self self_pool abt =
      then_do (keep_pool abt (pool_init_external numbered abt.pools (some "__primary__") self_pool))
        (λ b.
          keep_external b (
            xstream_init_external numbered A b.xstreams b.pools b.joined (some "__primary__") self))

  abbrev pub with_primary :
      (numbered : ℕ → String)
      → (main_pool : ℕ → Option ℕ) → (first_init : Bool) → (self self_pool : ℕ) → Makers
      → Abt
      → Option ℕ
      → Bool × Abt
  with_primary numbered main_pool first_init self self_pool N abt (some i) =
      (fits_primary abt.pools (main_pool (xstream_in (get_elem? abt.xstreams i))), abt)
  with_primary numbered main_pool first_init self self_pool N abt none =
      if first_init
      then own_primary N abt (find_pool_by_name abt.pools (some "__primary__"))
      else external_primary numbered self self_pool abt

abbrev pub or_destroyed : Argobots → Bool × Abt → Bool × Abt
or_destroyed A (true, abt) = (true, abt)
or_destroyed A (false, abt) = (false, abt_destroy A abt)

abbrev pub empty_arrays : Abt
empty_arrays = record {
  pools = [];
  pools_cap = 0;
  xstreams = [];
  xstreams_cap = 0;
  freed = [];
  joined = [];
}

-- The arrays in `__margo_abt_init_from_json`: `first_init` is whether it has called ABT_init,
-- `pools_memory` and `xstreams_memory` whether calloc succeeds, `primary` what the calls for the
-- stream "__primary__" give.
unfoldable pub abt_init_from_json :
    (J : Json) (numbered : ℕ → String)
    → Argobots
    → (pool_makers xstream_makers : ℕ → Makers) → (primary : Makers) → (main_pool : ℕ → Option ℕ)
    → (before_two copied pools_memory xstreams_memory first_init : Bool) → (self self_pool : ℕ)
    → Option J.Value
    → Bool × Abt
unfolding init_pools init_xstreams abt_destroy
abt_init_from_json J numbered A P X primary main_pool before_two copied pools_memory xstreams_memory
      first_init self self_pool config =
    let jpools = elements_of J (get J config "pools") in
    let jxstreams = elements_of J (get J config "xstreams") in
    or_destroyed A (
      then_do (pools_memory, record empty_arrays { pools_cap = length jpools + 3 })
        (λ a. then_do (init_pools A P copied J numbered before_two 0 jpools a) (λ b.
          then_do (xstreams_memory, record b { xstreams_cap = length jxstreams + 1 })
            (λ c. then_do (init_xstreams A X copied J numbered before_two 0 jxstreams c) (λ d.
              with_primary A X copied numbered main_pool first_init self self_pool primary d
                (find_xstream_by_name d.xstreams (some "__primary__")))))))
