-- ===== src/PoolChoice/Defs.antt =====
-- src/margo-init.c: how `margo_init_ext` finds or makes the progress pool and the pool for RPCs, in
-- the arrays of the instance or of its parent. None is a jump to the label error.
use Prim.Native.String.{String}
use mochi_margo.Base.{
  ℕ, zero, suc, Bool, true, false, ◌&&◌, not, ◌==◌, ltb, if◌then◌else◌, null, Option, none, some,
  length,
}
use mochi_margo.AbtConfig.Json.{Json}
use mochi_margo.AbtConfig.Entries.{Abt, find_pool_by_name}
use mochi_margo.AbtConfig.Xstreams.{Argobots, Makers, handle_at, or_null}
use mochi_margo.AbtConfig.Arrays.{add_pool_from_json, add_xstream_from_json, add_external_pool}

-- The field "rpc_thread_count": below zero, or a number, which is 0 where there is no field.
pub data ThreadCount : Type 0 where
  below_zero : ThreadCount
  threads : ℕ → ThreadCount

-- What a caller asks for, in the arguments and in the configuration.
pub record Wishes (V : Type 0) : Type 0 where
  pub progress_pool : ℕ
  pub rpc_pool : ℕ
  pub jprogress_pool : Option V
  pub jrpc_pool : Option V
  pub use_progress_thread : Bool
  pub rpc_thread_count : ThreadCount

-- Indices are none where they are below zero.
abbrev pub Chosen : Type 0
Chosen = Option (Option ℕ × Abt)

abbrev pub when_added : Bool × Abt → (Abt → Chosen) → Chosen
when_added (false, abt) rest = none
when_added (true, abt) rest = rest abt

-- The objects that are made up for a pool, and for a stream that runs the pool at an index, with the
-- results of the calls of Argobots for the entry of a number.
module _ (J : Json) (pool_object : J.Value) (xstream_object : ℕ → J.Value) (numbered : ℕ → String)
    (before_two memory copied : Bool) (A : Argobots) (M : ℕ → Makers) where
  abbrev pub add_pool : ℕ → Abt → Bool × Abt
  add_pool i abt =
      add_pool_from_json J numbered before_two true memory copied (M i) abt (some pool_object)

  abbrev pub add_xstream : ℕ → ℕ → Abt → Bool × Abt
  add_xstream i index abt =
      add_xstream_from_json J numbered before_two true memory copied (M i) A abt
        (some (xstream_object index))

  -- The loop that adds the streams of the pool for RPCs.
  unfoldable pub add_xstreams : (n i index : ℕ) → Abt → Chosen
  add_xstreams zero i index abt = some (some index, abt)
  add_xstreams (suc n) i index abt =
      when_added (add_xstream i index abt) (add_xstreams n (suc i) index)

  -- A pool in the configuration, by index or by name.
  abbrev pub configured : Abt → J.Value → Option ℕ
  configured abt v =
      if J.is_int v then J.integer v else find_pool_by_name abt.pools (some (J.text v))

  abbrev pub made_progress : Abt → Chosen
  made_progress abt = when_added (add_pool 0 abt) (λ b.
      when_added (add_xstream 1 (length abt.pools) b) (λ c. some (some (length abt.pools), c)))

  abbrev pub unasked_progress : Option J.Value → Bool → (primary : ℕ) → Abt → Chosen
  unasked_progress (some v) use_thread primary abt = some (configured abt v, abt)
  unasked_progress none true primary abt = made_progress abt
  unasked_progress none false primary abt = some (some primary, abt)

  -- A pool that the caller gives, added without a name.
  abbrev pub added : Abt → ℕ → Chosen
  added abt pool =
      when_added (add_external_pool numbered memory abt none pool)
        (λ b. some (some (length abt.pools), b))

  unfoldable pub choose_progress : Wishes J.Value → (primary primary_pool : ℕ) → Abt → Chosen
  choose_progress w primary primary_pool abt =
      if not (primary_pool == null) && (w.progress_pool == primary_pool)
      then some (some primary, abt)
      else if not (w.progress_pool == null)
      then added abt w.progress_pool
      else unasked_progress w.jprogress_pool w.use_progress_thread primary abt

  abbrev pub by_threads : ThreadCount → (primary : ℕ) → (progress : Option ℕ) → Abt → Chosen
  by_threads below_zero primary progress abt = some (progress, abt)
  by_threads (threads zero) primary progress abt = some (some primary, abt)
  by_threads (threads (suc n)) primary progress abt =
      when_added (add_pool 2 abt) (add_xstreams (suc n) 3 (length abt.pools))

  abbrev pub unasked_rpc :
      Option J.Value → ThreadCount → (primary : ℕ) → (progress : Option ℕ) → Abt → Chosen
  unasked_rpc (some v) count primary progress abt = some (configured abt v, abt)
  unasked_rpc none count primary progress abt = by_threads count primary progress abt

  unfoldable pub choose_rpc :
      Wishes J.Value → (primary primary_pool : ℕ) → (progress : Option ℕ) → Abt → Chosen
  unfolding add_xstreams
  choose_rpc w primary primary_pool progress abt =
      if not (primary_pool == null) && (w.rpc_pool == primary_pool)
      then some (some primary, abt)
      else if not (w.progress_pool == null) && (w.rpc_pool == w.progress_pool)
      then some (progress, abt)
      else if not (w.rpc_pool == null)
      then added abt w.rpc_pool
      else unasked_rpc w.jrpc_pool w.rpc_thread_count primary progress abt

  -- The last test of the two indices.
  abbrev pub tested : Option ℕ → Option ℕ → Abt → Option (ℕ × ℕ × Abt)
  tested (some p) (some r) abt =
      if ltb p (length abt.pools) && ltb r (length abt.pools) then some (p, r, abt) else none
  tested _ _ abt = none

  abbrev pub then_tested : Option ℕ → Chosen → Option (ℕ × ℕ × Abt)
  then_tested progress none = none
  then_tested progress (some (rpc, abt)) = tested progress rpc abt

  abbrev pub then_rpc : Wishes J.Value → (primary primary_pool : ℕ) → Chosen → Option (ℕ × ℕ × Abt)
  then_rpc w primary primary_pool none = none
  then_rpc w primary primary_pool (some (progress, abt)) =
      then_tested progress (choose_rpc w primary primary_pool progress abt)

  abbrev pub from_primary : Wishes J.Value → Abt → Option ℕ → Option (ℕ × ℕ × Abt)
  from_primary w abt none = none
  from_primary w abt (some primary) =
      let primary_pool = or_null (handle_at abt.pools (some primary)) in
      then_rpc w primary primary_pool (choose_progress w primary primary_pool abt)

  -- The indices of the two pools, and the arrays.
  unfoldable pub choose_pools : Wishes J.Value → Abt → Option (ℕ × ℕ × Abt)
  unfolding choose_progress choose_rpc
  choose_pools w abt = from_primary w abt (find_pool_by_name abt.pools (some "__primary__"))
