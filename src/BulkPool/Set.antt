-- ===== src/BulkPool/Set.antt =====
-- src/margo-bulk-pool.c: pool sets, pools of sizes that grow by a factor.
use mochi_margo.Base.{
  ℕ, zero, suc, Bool, false, not, ◌&&◌, Option, none, some, List, [], ◌∷◌, ◌++◌, leb, ◌==◌,
  if◌then◌else◌, ◌>>=◌, mul_u64, null,
}
use mochi_margo.Mercury.{HgReturn, success, nomem_error, is_success}
use mochi_margo.BulkPool.Defs.{
  Pool, Outcome, fault, rejected, waits, done, pool_get, pool_tryget, BulkInfo, pool_release,
  pool_destroy,
}
use mochi_margo.BulkPool.Create.{Calls, pool_create}

-- `npools` is the length of `pools`.
pub record Poolset : Type 0 where
  pub pools : List Pool
  pub nbufs : ℕ
  pub first_size : ℕ
  pub size_multiple : ℕ

-- The loop of `margo_bulk_poolset_create`: the code of the last call, and the pools made so far in
-- order; `none` is a fault. The first argument is the number of rounds left, `i` the round.
unfoldable pub create_pools :
    (ℕ → Calls) → (n i nbufs size size_multiple flag : ℕ) → Option (HgReturn × List Pool)
create_pools calls zero i nbufs size m flag = some (success, [])
create_pools calls (suc n) i nbufs size m flag =
    let rest = create_pools calls n (suc i) nbufs (mul_u64 size m) m flag in
    do
      r ← pool_create (calls i) nbufs size flag
      elim r.pool [
        | none ↦ some (r.ret, [])
        | some p ↦
            if is_success r.ret
            then (do (ret, pools) ← rest; some (ret, p ∷ pools))
            else some (r.ret, [])
      ]

pub record SetCreated : Type 0 where
  pub ret : HgReturn
  pub poolset : Option Poolset
  pub destroyed : List Pool

-- `margo_bulk_poolset_create`, where the asserted conditions hold; the two allocations come first.
-- On failure the pools made so far are destroyed.
unfoldable pub poolset_create :
    (calloc_set calloc_pools : Bool)
    → (ℕ → Calls)
    → (npools nbufs first_size size_multiple flag : ℕ) → Option SetCreated
unfolding create_pools
poolset_create calloc_set calloc_pools calls npools nbufs first_size size_multiple flag =
    if not (calloc_set && calloc_pools)
    then some (record { ret = nomem_error; poolset = none; destroyed = [] })
    else do
      (ret, pools) ← create_pools calls npools 0 nbufs first_size size_multiple flag
      some (
          if is_success ret
          then record {
            ret = success;
            poolset = some (record {
              pools = pools;
              nbufs = nbufs;
              first_size = first_size;
              size_multiple = size_multiple;
            });
            destroyed = [];
          }
          else record { ret = ret; poolset = none; destroyed = pools })

-- A call on the pool at the head of a list that also returns a handle, and one that does not.
abbrev pub at_head : Outcome (ℕ × Pool) → List Pool → Outcome (ℕ × List Pool)
at_head fault ps = fault
at_head rejected ps = rejected
at_head waits ps = waits
at_head (done (b, p)) ps = done (b, p ∷ ps)

abbrev pub head_only : Outcome Pool → List Pool → Outcome (List Pool)
head_only fault ps = fault
head_only rejected ps = rejected
head_only waits ps = waits
head_only (done p) ps = done (p ∷ ps)

-- A call on the tail of a list.
abbrev pub behind : Pool → Outcome (ℕ × List Pool) → Outcome (ℕ × List Pool)
behind p fault = fault
behind p rejected = rejected
behind p waits = waits
behind p (done (b, ps)) = done (b, p ∷ ps)

abbrev pub behind_only : Pool → Outcome (List Pool) → Outcome (List Pool)
behind_only p fault = fault
behind_only p rejected = rejected
behind_only p waits = waits
behind_only p (done ps) = done (p ∷ ps)

-- The loop of `margo_bulk_poolset_get`.
unfoldable pub get_loop : (size this_size size_mult : ℕ) → List Pool → Outcome (ℕ × List Pool)
get_loop size this_size size_mult [] = rejected
get_loop size this_size size_mult (p ∷ ps) =
    if leb size this_size
    then at_head (pool_get (some p)) ps
    else behind p (get_loop size (mul_u64 this_size size_mult) size_mult ps)

-- `margo_bulk_poolset_get`; `none` is MARGO_BULK_POOLSET_NULL, the answer has the pools after it.
unfoldable pub poolset_get : Option Poolset → ℕ → Outcome (ℕ × List Pool)
unfolding get_loop
poolset_get none size = rejected
poolset_get (some s) size = get_loop size s.first_size s.size_multiple s.pools

-- Whether a try on a pool ends the search.
abbrev pub keeps_looking : (any_flag : Bool) → Outcome (ℕ × Pool) → Bool
keeps_looking any_flag (done (b, p)) = (b == null) && any_flag
keeps_looking any_flag _ = false

-- The loop of `margo_bulk_poolset_tryget`; it returns HG_BULK_NULL where no pool has a handle.
unfoldable pub tryget_loop :
    (size this_size size_mult : ℕ) → (any_flag : Bool) → List Pool → Outcome (ℕ × List Pool)
tryget_loop size this_size size_mult any_flag [] = done (null, [])
tryget_loop size this_size size_mult any_flag (p ∷ ps) =
    let rest = behind p (tryget_loop size (mul_u64 this_size size_mult) size_mult any_flag ps) in
    let head = pool_tryget (some p) in
    if leb size this_size
    then (if keeps_looking any_flag head then rest else at_head head ps)
    else rest

-- `margo_bulk_poolset_tryget`
unfoldable pub poolset_tryget : Option Poolset → ℕ → Bool → Outcome (ℕ × List Pool)
unfolding tryget_loop
poolset_tryget none size any_flag = rejected
poolset_tryget (some s) size any_flag =
    tryget_loop size s.first_size s.size_multiple any_flag s.pools

-- The loop of `margo_bulk_poolset_release`.
unfoldable pub release_loop :
    BulkInfo → (bulk bulk_size size size_mult : ℕ) → List Pool → Outcome (List Pool)
release_loop info bulk bulk_size size size_mult [] = rejected
release_loop info bulk bulk_size size size_mult (p ∷ ps) =
    if bulk_size == size
    then head_only (pool_release info (some p) bulk) ps
    else behind_only p (release_loop info bulk bulk_size (mul_u64 size size_mult) size_mult ps)

-- `margo_bulk_poolset_release`
unfoldable pub poolset_release : BulkInfo → Option Poolset → ℕ → Outcome (List Pool)
unfolding release_loop
poolset_release info none bulk = rejected
poolset_release info (some s) bulk =
    if bulk == null
    then rejected
    else release_loop info bulk (info.get_size bulk) s.first_size s.size_multiple s.pools

-- `margo_bulk_poolset_get_max`: the size of the last pool, a fault where there is none.
unfoldable pub get_max : List Pool → Option ℕ
get_max [] = none
get_max (p ∷ []) = some p.size
get_max (p ∷ q ∷ ps) = get_max (q ∷ ps)

-- `margo_bulk_poolset_destroy`: what each pool frees.
unfoldable pub poolset_destroy : Option Poolset → List ℕ
poolset_destroy none = []
poolset_destroy (some s) = free_all s.pools
  where
    free_all : List Pool → List ℕ
    free_all [] = []
    free_all (p ∷ ps) = (pool_destroy (some p)).1 ++ free_all ps
