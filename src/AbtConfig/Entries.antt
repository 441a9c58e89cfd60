-- ===== src/AbtConfig/Entries.antt =====
-- src/margo-abt-config.h: the entries for pools and execution streams, and the structure that holds
-- them. An array is the list of its entries; the slots behind them are zero. Texts are never null
-- in an entry, and counts are words of 32 bits.
use Prim.Native.String.{String}
use mochi_margo.Base.Text.{same_text}
use mochi_margo.Base.{ℕ, Bool, ◌==◌, if◌then◌else◌, null, Option, none, some, List}
use mochi_margo.Registry.Defs.{find_first}

-- `margo_abt_pool_t`
pub record PoolEntry : Type 0 where
  pub name : String
  pub pool : ℕ
  pub kind : String
  pub access : Option String
  pub refcount : ℕ
  pub num_xstreams : ℕ
  pub margo_free_flag : Bool
  pub used_by_primary : Bool

-- `margo_abt_xstream_t`, with the type of its scheduler.
pub record XstreamEntry : Type 0 where
  pub name : String
  pub xstream : ℕ
  pub refcount : ℕ
  pub sched_type : String
  pub margo_free_flag : Bool

-- `margo_abt_t`; `freed` and `joined` are the handles of the pools and the streams that were given
-- back to Argobots, the last one first.
pub record Abt : Type 0 where
  pub pools : List PoolEntry
  pub pools_cap : ℕ
  pub xstreams : List XstreamEntry
  pub xstreams_cap : ℕ
  pub freed : List ℕ
  pub joined : List ℕ

-- `__margo_abt_find_pool_by_name` and `__margo_abt_find_pool_by_handle`; none is the result -1.
unfoldable pub find_pool_by_name : List PoolEntry → Option String → Option ℕ
find_pool_by_name pools none = none
find_pool_by_name pools (some name) = find_first (λ p. same_text p.name name) pools

unfoldable pub find_pool_by_handle : List PoolEntry → ℕ → Option ℕ
find_pool_by_handle pools pool =
    if pool == null then none else find_first (λ p. p.pool == pool) pools

-- `__margo_abt_find_xstream_by_name` and `__margo_abt_find_xstream_by_handle`
unfoldable pub find_xstream_by_name : List XstreamEntry → Option String → Option ℕ
find_xstream_by_name xstreams none = none
find_xstream_by_name xstreams (some name) = find_first (λ x. same_text x.name name) xstreams

unfoldable pub find_xstream_by_handle : List XstreamEntry → ℕ → Option ℕ
find_xstream_by_handle xstreams xstream =
    if xstream == null then none else find_first (λ x. x.xstream == xstream) xstreams
