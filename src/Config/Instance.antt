-- ===== src/Config/Instance.antt =====
-- src/margo-config.c: adding and removing pools and execution streams of an instance. An instance is
-- its arrays and the indices of two pools; none is a null instance. The calls of the monitor change
-- nothing.
use Prim.Native.String.{String}
use mochi_margo.Mercury.{HgReturn, success, invalid_arg, other_error}
use mochi_margo.Base.{
  ℕ, ◌-◌, Bool, true, false, ◌==◌, ltb, if◌then◌else◌, Option, none, some, List, length, get_elem?,
}
use mochi_margo.Registry.Defs.{modify_at}
use mochi_margo.AbtConfig.Json.{Json}
use mochi_margo.AbtConfig.Entries.{
  PoolEntry, XstreamEntry, Abt, find_pool_by_name, find_pool_by_handle, find_xstream_by_name,
  find_xstream_by_handle,
}
use mochi_margo.AbtConfig.Xstreams.{Argobots, Makers, handle_at, or_null}
use mochi_margo.AbtConfig.Arrays.{
  add_pool_from_json, add_external_pool, add_xstream_from_json, add_external_xstream, remove_pool,
  remove_xstream,
}
use mochi_margo.Config.Defs.{Slot, pool_slot, xstream_slot, Info}

pub record Instance : Type 0 where
  pub abt : Abt
  pub progress_pool_idx : ℕ
  pub rpc_pool_idx : ℕ

-- MARGO_PROGRESS_POOL and MARGO_RPC_POOL: the slots behind the entries are zero.
abbrev pub progress_pool : Instance → ℕ
progress_pool mid = or_null (handle_at mid.abt.pools (some mid.progress_pool_idx))

abbrev pub rpc_pool : Instance → ℕ
rpc_pool mid = or_null (handle_at mid.abt.pools (some mid.rpc_pool_idx))

abbrev pub with_abt : Instance → Abt → Instance
with_abt mid abt = record mid { abt = abt }

-- The text of a configuration: none, one that cannot be parsed, or a value.
pub data Parsed (V : Type 0) : Type 0 where
  empty bad : Parsed V
  value : V → Parsed V

abbrev pub info_at : {A : Type 0} → Slot A → ℕ → Option A → Option Info
info_at S i none = none
info_at S i (some x) = some (record { index = i; name = S.name x; handle = S.handle x })

abbrev pub pool_info : List PoolEntry → ℕ → Option Info
pool_info pools i = info_at pool_slot i (get_elem? pools i)

abbrev pub xstream_info : List XstreamEntry → ℕ → Option Info
xstream_info xstreams i = info_at xstream_slot i (get_elem? xstreams i)

-- What a caller learns: the result, and the information on the last entry.
abbrev pub Reply : Type 0
Reply = HgReturn × Option Info × Option Instance

abbrev pub pool_reply : Instance → Bool × Abt → Reply
pool_reply mid (false, abt) = (invalid_arg, none, some (with_abt mid abt))
pool_reply mid (true, abt) =
    (success, pool_info abt.pools (length abt.pools - 1), some (with_abt mid abt))

abbrev pub xstream_reply : Instance → Bool × Abt → Reply
xstream_reply mid (false, abt) = (invalid_arg, none, some (with_abt mid abt))
xstream_reply mid (true, abt) =
    (success, xstream_info abt.xstreams (length abt.xstreams - 1), some (with_abt mid abt))

-- `take_ownership` of the pool or the stream that was added last.
abbrev pub own_pool : Bool → Bool × Abt → Bool × Abt
own_pool owned (false, abt) = (false, abt)
own_pool owned (true, abt) = (
  true,
  record abt {
    pools = modify_at (length abt.pools - 1) (λ p. record p { margo_free_flag = owned }) abt.pools;
  },
)

abbrev pub own_xstream : Bool → Bool × Abt → Bool × Abt
own_xstream owned (false, abt) = (false, abt)
own_xstream owned (true, abt) = (
  true,
  record abt {
    xstreams =
        modify_at (length abt.xstreams - 1) (λ x. record x { margo_free_flag = owned })
          abt.xstreams;
  },
)

abbrev pub own_external : Instance → Bool → Option (Bool × Abt) → Option Reply
own_external mid owned none = none
own_external mid owned (some r) = some (xstream_reply mid (own_xstream owned r))

module _ (J : Json) (numbered : ℕ → String) (before_two abt_runs memory copied : Bool)
    (M : Makers) where
  -- `margo_add_pool_from_json`, which faults on a null instance: none.
  unfoldable pub add_pool_json : Option Instance → Parsed J.Value → Option Reply
  unfolding add_pool_from_json
  add_pool_json mid bad = some (invalid_arg, none, mid)
  add_pool_json none config = none
  add_pool_json (some mid) empty = some (
      pool_reply mid
        (add_pool_from_json J numbered before_two abt_runs memory copied M mid.abt none))
  add_pool_json (some mid) (value v) = some (
      pool_reply mid
        (add_pool_from_json J numbered before_two abt_runs memory copied M mid.abt (some v)))

  -- `margo_add_xstream_from_json`
  unfoldable pub add_xstream_json : Argobots → Option Instance → Parsed J.Value → Reply
  unfolding add_xstream_from_json
  add_xstream_json A none config = (invalid_arg, none, none)
  add_xstream_json A (some mid) bad = (invalid_arg, none, some mid)
  add_xstream_json A (some mid) empty =
      xstream_reply mid
        (add_xstream_from_json J numbered before_two abt_runs memory copied M A mid.abt none)
  add_xstream_json A (some mid) (value v) =
      xstream_reply mid
        (add_xstream_from_json J numbered before_two abt_runs memory copied M A mid.abt (some v))

module _ (numbered : ℕ → String) (memory : Bool) where
  -- `margo_add_pool_external`
  unfoldable pub add_pool_external :
      Option Instance → Option String → ℕ → (take_ownership : Bool) → Reply
  unfolding add_external_pool
  add_pool_external none name pool owned = (invalid_arg, none, none)
  add_pool_external (some mid) name pool owned =
      pool_reply mid (own_pool owned (add_external_pool numbered memory mid.abt name pool))

  -- `margo_add_xstream_external`; none is a fault.
  unfoldable pub add_xstream_external :
      Argobots → Option Instance → Option String → ℕ → (take_ownership : Bool) → Option Reply
  unfolding add_external_xstream
  add_xstream_external A none name xstream owned = some (invalid_arg, none, none)
  add_xstream_external A (some mid) name xstream owned =
      own_external mid owned (add_external_xstream numbered memory A mid.abt name xstream)

abbrev pub removed : Instance → HgReturn × Abt → HgReturn × Option Instance
removed mid (ret, abt) = (ret, some (with_abt mid abt))

module _ (total_size : ℕ → Option ℕ) (mid : Instance) where
  -- The checks that the three removals of a pool share, at the entry of an index.
  abbrev pub remove_at : ℕ → Option PoolEntry → HgReturn × Option Instance
  remove_at index none = (invalid_arg, some mid)
  remove_at index (some p) =
      if p.pool == progress_pool mid
      then (other_error, some mid)
      else if p.pool == rpc_pool mid
      then (other_error, some mid)
      else removed mid (remove_pool total_size mid.abt index)

  abbrev pub remove_found : Option ℕ → HgReturn × Option Instance
  remove_found none = (invalid_arg, some mid)
  remove_found (some index) = remove_at index (get_elem? mid.abt.pools index)

module _ (total_size : ℕ → Option ℕ) where
  -- `margo_remove_pool_by_index`, `margo_remove_pool_by_name` and `margo_remove_pool_by_handle`
  unfoldable pub remove_pool_by_index : Option Instance → ℕ → HgReturn × Option Instance
  unfolding remove_pool
  remove_pool_by_index none index = (invalid_arg, none)
  remove_pool_by_index (some mid) index =
      remove_at total_size mid index (get_elem? mid.abt.pools index)

  unfoldable pub remove_pool_by_name : Option Instance → Option String → HgReturn × Option Instance
  unfolding remove_pool
  remove_pool_by_name none name = (invalid_arg, none)
  remove_pool_by_name (some mid) name =
      remove_found total_size mid (find_pool_by_name mid.abt.pools name)

  unfoldable pub remove_pool_by_handle : Option Instance → ℕ → HgReturn × Option Instance
  unfolding remove_pool
  remove_pool_by_handle none pool = (invalid_arg, none)
  remove_pool_by_handle (some mid) pool =
      remove_found total_size mid (find_pool_by_handle mid.abt.pools pool)

module _ (A : Argobots) where
  -- `margo_remove_xstream_by_index`, `margo_remove_xstream_by_name` and
  -- `margo_remove_xstream_by_handle`
  unfoldable pub remove_xstream_by_index : Option Instance → ℕ → HgReturn × Option Instance
  unfolding remove_xstream
  remove_xstream_by_index none index = (invalid_arg, none)
  remove_xstream_by_index (some mid) index =
      if ltb index (length mid.abt.xstreams)
      then removed mid (remove_xstream A mid.abt index)
      else (other_error, some mid)

  abbrev pub remove_xstream_found : Instance → Option ℕ → HgReturn × Option Instance
  remove_xstream_found mid none = (invalid_arg, some mid)
  remove_xstream_found mid (some index) = removed mid (remove_xstream A mid.abt index)

  unfoldable pub remove_xstream_by_name :
      Option Instance → Option String → HgReturn × Option Instance
  unfolding remove_xstream
  remove_xstream_by_name none name = (invalid_arg, none)
  remove_xstream_by_name (some mid) name =
      remove_xstream_found mid (find_xstream_by_name mid.abt.xstreams name)

  unfoldable pub remove_xstream_by_handle : Option Instance → ℕ → HgReturn × Option Instance
  unfolding remove_xstream
  remove_xstream_by_handle none xstream = (invalid_arg, none)
  remove_xstream_by_handle (some mid) xstream =
      remove_xstream_found mid (find_xstream_by_handle mid.abt.xstreams xstream)
