-- ===== src/AbtConfig/Arrays.antt =====
-- src/margo-abt-config.c: adding pools and execution streams to the arrays, and removing them.
use Prim.Native.String.{String}
use mochi_margo.Mercury.{HgReturn, success, invalid_arg, permission, other_error}
use mochi_margo.Base.Text.{same_text}
use mochi_margo.Base.{
  ℕ, zero, suc, ◌+◌, ◌*◌, ◌/◌, Bool, true, false, ◌||◌, not, ◌==◌, if◌then◌else◌, Option, none,
  some, [], ◌∷◌, ◌++◌, length, get_elem?,
}
use mochi_margo.Registry.Defs.{swap_remove}
use mochi_margo.AbtConfig.Json.{Json, get, pool_validate_json, xstream_validate_json}
use mochi_margo.AbtConfig.Entries.{
  PoolEntry, XstreamEntry, Abt, find_pool_by_name, find_pool_by_handle, find_xstream_by_name,
  find_xstream_by_handle,
}
use mochi_margo.AbtConfig.Pools.{text_of, pool_init_from_json, pool_init_external, pool_destroy}
use mochi_margo.AbtConfig.Xstreams.{
  Argobots, Makers, Made, is_some, xstream_init_from_json, xstream_init_external, xstream_destroy,
}

-- The capacity after `realloc`: one and a half times the old one, rounded down, and one more; none
-- where memory does not suffice. An array that is not full stays as it is.
unfoldable pub grow : (memory : Bool) → (len cap : ℕ) → Option ℕ
grow memory len cap =
    if not (len == cap) then some cap else if memory then some (cap * 3 / 2 + 1) else none

-- The entry behind the others, where there is one.
abbrev pub pushed_pool : Abt → ℕ → Option PoolEntry → Bool × Abt
pushed_pool abt cap none = (false, record abt { pools_cap = cap })
pushed_pool abt cap (some p) = (true, record abt { pools = abt.pools ++ p ∷ []; pools_cap = cap })

abbrev pub push_pool : Abt → Option ℕ → Option PoolEntry → Bool × Abt
push_pool abt none p = (false, abt)
push_pool abt (some cap) p = pushed_pool abt cap p

-- The same for a stream, whose initialisation changes the pools too.
abbrev pub pushed_xstream : Abt → ℕ → Option XstreamEntry → Bool × Abt
pushed_xstream abt cap none = (false, record abt { xstreams_cap = cap })
pushed_xstream abt cap (some x) =
    (true, record abt { xstreams = abt.xstreams ++ x ∷ []; xstreams_cap = cap })

abbrev pub push_made : Abt → ℕ → Made → Bool × Abt
push_made abt cap m = pushed_xstream (record abt { pools = m.pools; joined = m.joined }) cap m.entry

abbrev pub push_xstream : Abt → Option ℕ → Made → Bool × Abt
push_xstream abt none m = (false, abt)
push_xstream abt (some cap) m = push_made abt cap m

abbrev pub push_external : Abt → Option ℕ → Option Made → Option (Bool × Abt)
push_external abt none m = some (false, abt)
push_external abt (some cap) none = none
push_external abt (some cap) (some m) = some (push_made abt cap m)

-- The checks before an entry is made.
module _ (J : Json) where
  abbrev pub pool_refused : (abt_runs : Bool) → Abt → Option J.Value → Bool
  pool_refused abt_runs abt config =
      not (pool_validate_json J abt_runs config)
      || is_some (find_pool_by_name abt.pools (text_of J (get J config "name")))

  abbrev pub xstream_refused : (before_two abt_runs : Bool) → Abt → Option J.Value → Bool
  xstream_refused before_two abt_runs abt config =
      let known : String → Bool = λ name. is_some (find_pool_by_name abt.pools (some name)) in
      not (xstream_validate_json J before_two abt_runs known (length abt.pools) [] config)
      || is_some (find_xstream_by_name abt.xstreams (text_of J (get J config "name")))

abbrev pub external_pool_refused : Abt → Option String → ℕ → Bool
external_pool_refused abt name pool =
    is_some (find_pool_by_name abt.pools name) || is_some (find_pool_by_handle abt.pools pool)

abbrev pub external_xstream_refused : Abt → Option String → ℕ → Bool
external_xstream_refused abt name xstream =
    is_some (find_xstream_by_name abt.xstreams name)
    || is_some (find_xstream_by_handle abt.xstreams xstream)

module _ (J : Json) (numbered : ℕ → String) (before_two abt_runs memory copied : Bool)
    (M : Makers) where
  -- `__margo_abt_add_pool_from_json`
  unfoldable pub add_pool_from_json : Abt → Option J.Value → Bool × Abt
  unfolding grow pool_init_from_json
  add_pool_from_json abt config =
      if pool_refused J abt_runs abt config
      then (false, abt)
      else push_pool abt (grow memory (length abt.pools) abt.pools_cap)
          (pool_init_from_json J numbered before_two copied M.create_pool abt.pools config)

  -- `__margo_abt_add_xstream_from_json`
  unfoldable pub add_xstream_from_json : Argobots → Abt → Option J.Value → Bool × Abt
  unfolding grow xstream_init_from_json
  add_xstream_from_json A abt config =
      if xstream_refused J before_two abt_runs abt config
      then (false, abt)
      else push_xstream abt (grow memory (length abt.xstreams) abt.xstreams_cap)
          (xstream_init_from_json J numbered A M copied abt.xstreams abt.pools abt.joined config)

module _ (numbered : ℕ → String) (memory : Bool) where
  -- `__margo_abt_add_external_pool`
  unfoldable pub add_external_pool : Abt → Option String → ℕ → Bool × Abt
  unfolding grow pool_init_external
  add_external_pool abt name pool =
      if external_pool_refused abt name pool
      then (false, abt)
      else push_pool abt (grow memory (length abt.pools) abt.pools_cap)
          (pool_init_external numbered abt.pools name pool)

  -- `__margo_abt_add_external_xstream`; none is a fault.
  unfoldable pub add_external_xstream : Argobots → Abt → Option String → ℕ → Option (Bool × Abt)
  unfolding grow xstream_init_external
  add_external_xstream A abt name xstream =
      if external_xstream_refused abt name xstream
      then some (false, abt)
      else push_external abt (grow memory (length abt.xstreams) abt.xstreams_cap)
          (xstream_init_external numbered A abt.xstreams abt.pools abt.joined name xstream)

-- The end of `__margo_abt_remove_pool`, on what ABT_pool_get_total_size gives.
abbrev pub remove_empty : Abt → ℕ → PoolEntry → Option ℕ → HgReturn × Abt
remove_empty abt index p none = (other_error, abt)
remove_empty abt index p (some (suc n)) = (permission, abt)
remove_empty abt index p (some zero) =
    (success, record abt { pools = swap_remove abt.pools index; freed = pool_destroy p abt.freed })

abbrev pub remove_unused : (total_size : ℕ → Option ℕ) → Abt → ℕ → Option PoolEntry → HgReturn × Abt
remove_unused total_size abt index none = (invalid_arg, abt)
remove_unused total_size abt index (some p) =
    if not (p.refcount == 0)
    then (permission, abt)
    else if not (p.num_xstreams == 0)
    then (permission, abt)
    else remove_empty abt index p (total_size p.pool)

-- `__margo_abt_remove_pool`
unfoldable pub remove_pool : (total_size : ℕ → Option ℕ) → Abt → ℕ → HgReturn × Abt
unfolding swap_remove pool_destroy
remove_pool total_size abt index = remove_unused total_size abt index (get_elem? abt.pools index)

abbrev pub remove_stream : Argobots → Abt → ℕ → Option XstreamEntry → HgReturn × Abt
remove_stream A abt index none = (invalid_arg, abt)
remove_stream A abt index (some x) =
    if same_text x.name "__primary__"
    then (permission, abt)
    else if not (x.refcount == 0)
    then (permission, abt)
    else let d = xstream_destroy A x abt.pools abt.joined in
      (success, record abt { xstreams = swap_remove abt.xstreams index; pools = d.0; joined = d.1 })

-- `__margo_abt_remove_xstream`
unfoldable pub remove_xstream : Argobots → Abt → ℕ → HgReturn × Abt
unfolding swap_remove xstream_destroy
remove_xstream A abt index = remove_stream A abt index (get_elem? abt.xstreams index)
