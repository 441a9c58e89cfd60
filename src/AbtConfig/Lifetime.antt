-- ===== src/AbtConfig/Lifetime.antt =====
-- src/margo-abt-config.c: the operations on the arrays in any order, while Argobots runs.
use Prim.Native.String.{String}
use mochi_margo.Mercury.{success, permission}
use mochi_margo.Base.{
  ℕ, zero, suc, ◌+◌, ◌*◌, ◌/◌, length, ◌^◌, ◌≤◌, ◌<◌, ◌≡◌, ◌≢◌, inl, inr, refl, ap, ◌∙◌, sym, Bool,
  true, false, Bool-cases, ◌==◌, ◌&&◌, not, if◌then◌else◌, null, Option, none, some, List, arith,
  get_elem?,
}
use mochi_margo.Registry.Totals.{le-total, number, total-swap_remove}
use mochi_margo.AbtConfig.Json.{Json}
use mochi_margo.AbtConfig.Entries.{PoolEntry, XstreamEntry, Abt}
use mochi_margo.AbtConfig.Xstreams.{
  Argobots, Makers, pools_of, xstream_destroy, xstream_init_external, sched_init_external,
  new_entry, all_registered,
}
use mochi_margo.AbtConfig.Arrays.{
  add_pool_from_json, add_external_pool, add_xstream_from_json, add_external_xstream,
  external_xstream_refused, grow, remove_pool, remove_xstream, remove_unused, remove_empty,
}
use mochi_margo.Registry.Defs.{swap_remove}
use mochi_margo.AbtConfig.Pools.{name_or_unused, pool_destroy}
use mochi_margo.AbtConfig.Counts.{held, times, one_if, Unique, held-count_down, reached, held-alone}
use mochi_margo.AbtConfig.Creation.{destroy-pools}
use mochi_margo.AbtConfig.Usage.{runs, Inv, Roomy, Starts, Fresh}
use mochi_margo.AbtConfig.Steps.{
  add_pool-Inv, add_external_pool-Inv, add_xstream-Inv, add_external_xstream-Inv,
}
use mochi_margo.AbtConfig.Removal.{remove_pool-Inv, remove_xstream-Inv}

-- One operation, whatever it returns; but an external stream is one that is accepted.
pub data Step (A : Argobots) (J : Json) (numbered : ℕ → String) (before_two : Bool) (abt : Abt)
    : Abt → Type 1 where
  add_pool :
      (memory copied : Bool) (M : Makers) (config : Option J.Value)
      → Fresh M abt.pools
      → Step A J numbered before_two abt
          (add_pool_from_json J numbered before_two true memory copied M abt config).1
  add_xstream :
      (memory copied : Bool) (M : Makers) (config : Option J.Value)
      → Roomy A abt.pools
      → Starts A M
      → Step A J numbered before_two abt
          (add_xstream_from_json J numbered before_two true memory copied M A abt config).1
  external_pool :
      (memory : Bool) (name : Option String) (pool : ℕ)
      → Step A J numbered before_two abt (add_external_pool numbered memory abt name pool).1
  external_xstream :
      (memory : Bool) (name : Option String) (xstream : ℕ) (after : Abt)
      → xstream ≢ null
      → Roomy A abt.pools
      → add_external_xstream numbered memory A abt name xstream ≡ some (true, after)
      → Step A J numbered before_two abt after
  pool_removed :
      (total_size : ℕ → Option ℕ) (index : ℕ)
      → Step A J numbered before_two abt (remove_pool total_size abt index).1
  xstream_removed : (index : ℕ) → Step A J numbered before_two abt (remove_xstream A abt index).1

pub data Reach (A : Argobots) (J : Json) (numbered : ℕ → String) (before_two : Bool) (abt : Abt)
    : Abt → Type 1 where
  here : Reach A J numbered before_two abt abt
  next :
      {b c : Abt}
      → Reach A J numbered before_two abt b
      → Step A J numbered before_two b c
      → Reach A J numbered before_two abt c

module _ (A : Argobots) (J : Json) (numbered : ℕ → String) (before_two : Bool)
    (plain : (j : ℕ) → numbered j ≢ "__primary__") where
  Step-Inv : (a b : Abt) → Inv A a → Step A J numbered before_two a b → Inv A b
  Step-Inv a b v (add_pool memory copied M config f) =
      add_pool-Inv A J numbered before_two true memory copied M a config f v
  Step-Inv a b v (add_xstream memory copied M config roomy starts) =
      add_xstream-Inv A M copied a J numbered before_two memory config plain roomy starts v
  Step-Inv a b v (external_pool memory name pool) =
      add_external_pool-Inv A numbered memory a name pool v
  Step-Inv a b v (external_xstream memory name xstream after real roomy e) =
      add_external_xstream-Inv A a after numbered memory name xstream real roomy e v
  Step-Inv a b v (pool_removed total_size index) = remove_pool-Inv A total_size a index v
  Step-Inv a b v (xstream_removed index) = remove_xstream-Inv A a index v

-- From arrays that are right, every sequence of additions and removals of pools and streams, internal
-- and external, whatever each returns, leaves the arrays right: no two entries
-- have one handle, and the number in the entry of each pool is how often the schedulers of the streams
-- in the array name it. The conditions on the additions: a new
-- pool has a handle that is not registered; ABT_xstream_create succeeds for every scheduler, with a
-- stream that is not null and has that scheduler as its main one; no scheduler names so many pools that
-- a number would reach 2 ^ 32; an external stream is not null and is accepted; and no name that is made
-- up is "__primary__".
pub usage_is_kept :
    (A : Argobots) (J : Json) (numbered : ℕ → String) (before_two : Bool)
    → ((j : ℕ) → numbered j ≢ "__primary__")
    → (a b : Abt) → Inv A a
    → Reach A J numbered before_two a b
    → Inv A b
usage_is_kept A J numbered before_two plain a b v here = v
usage_is_kept A J numbered before_two plain a b v (next {b = c} r s) =
    Step-Inv A J numbered before_two plain c b (usage_is_kept A J numbered before_two plain a c v r)
      s

-- In arrays that are right, the removal of a pool that some stream runs is refused and changes
-- nothing.
pub run_pool_stays :
    (A : Argobots) (total_size : ℕ → Option ℕ) (abt : Abt) (index i : ℕ) (p : PoolEntry)
    (x : XstreamEntry)
    → Inv A abt
    → get_elem? abt.pools index ≡ some p
    → get_elem? abt.xstreams i ≡ some x
    → p.pool ≢ null
    → 1 ≤ runs A p.pool x
    → remove_pool total_size abt index ≡ (permission, abt)
unfolding remove_pool
run_pool_stays A total_size abt index i p x v at there real run =
    let whole = held-alone p.pool abt.pools index p (v.unique p.pool real) at refl in
    let part = le-total (runs A p.pool) abt.xstreams i x there in
    let busy : (p.num_xstreams == 0) ≡ false = ground (arith, whole, part, v.counted p.pool, run) in
    elim (Bool-cases (p.refcount == 0)) [ inl y ↦ rw (at, y, busy) refl | inr n ↦ rw (at, n) refl ]

grows : (len n : ℕ) → (c : ℕ) × (grow true len n ≡ some c)
unfolding grow
grows len n = elim (Bool-cases (len == n)) [
  | inl y ↦ (n * 3 / 2 + 1, rw y refl)
  | inr m ↦ (n, rw m refl)
]

-- An external stream with a pool that is not registered is refused, but only after every number of
-- a pool that its scheduler names before that one is lowered, as if the stream had been counted in.
-- The conditions are that the name and the stream are not registered, that the stream is not null and
-- there is room, and that the numbers are large enough to be lowered.
pub refused_external_lowers :
    (A : Argobots) (numbered : ℕ → String) (abt : Abt) (name : String) (xstream s : ℕ)
    (hs : List (Option ℕ))
    → xstream ≢ null
    → external_xstream_refused abt (some name) xstream ≡ false
    → A.main_sched xstream ≡ some s
    → A.sched_pools s ≡ some hs
    → all_registered abt.pools hs ≡ false
    → Unique abt.pools
    → ((h : ℕ) → times h (reached abt.pools hs) ≤ held h abt.pools)
    → ((h : ℕ) → held h abt.pools < 2 ^ 32)
    → (after : Abt) × (add_external_xstream numbered true A abt (some name) xstream
        ≡ some (false, after))
      × ((h : ℕ) → held h after.pools + times h (reached abt.pools hs) ≡ held h abt.pools)
unfolding add_external_xstream xstream_init_external name_or_unused
refused_external_lowers A numbered abt name xstream s hs real ok main pools missing u enough few =
    let x = new_entry name "external" xstream false in
    let d = xstream_destroy A x abt.pools abt.joined in
    let own : pools_of A (A.main_sched xstream) ≡ some hs = ap (pools_of A) main ∙ pools in
    let refused : sched_init_external abt.pools (pools_of A (A.main_sched xstream)) ≡ false =
      ap (sched_init_external abt.pools) own ∙ missing in
    let (bigger, room) = grows (length abt.xstreams) abt.xstreams_cap in
    let back = destroy-pools A x abt.pools abt.joined (some hs) real own in
    (
      record abt { pools = d.0; joined = d.1; xstreams_cap = bigger },
      rw (ok, room, refused) refl,
      λ h. omega (arith, ap (held h) back, held-count_down abt.pools hs u enough few h),
    )

removed_of :
    (total_size : ℕ → Option ℕ) (abt after : Abt) (i : ℕ) (p : PoolEntry) (size : Option ℕ)
    → remove_empty abt i p size ≡ (success, after)
    → (size ≡ some 0)
      × (after ≡ record abt { pools = swap_remove abt.pools i; freed = pool_destroy p abt.freed })
removed_of total_size abt after i p none e = absurd (ground (arith, e))
removed_of total_size abt after i p (some zero) e = (refl, sym (ap (λ r. r.1) e))
removed_of total_size abt after i p (some (suc n)) e = absurd (ground (arith, e))

-- What a removal that succeeds found and left.
pub removed_pool :
    (total_size : ℕ → Option ℕ) (abt after : Abt) (i : ℕ)
    → remove_pool total_size abt i ≡ (success, after)
    → (p : PoolEntry) × (get_elem? abt.pools i ≡ some p)
      × (p.refcount ≡ 0)
      × (p.num_xstreams ≡ 0)
      × (total_size p.pool ≡ some 0)
      × (after ≡ record abt { pools = swap_remove abt.pools i; freed = pool_destroy p abt.freed })
unfolding remove_pool
removed_pool total_size abt after i e = entry (get_elem? abt.pools i) refl e
  where
    entry :
        (o : Option PoolEntry)
        → get_elem? abt.pools i ≡ o
        → remove_unused total_size abt i o ≡ (success, after)
        → (p : PoolEntry) × (get_elem? abt.pools i ≡ some p)
          × (p.refcount ≡ 0)
          × (p.num_xstreams ≡ 0)
          × (total_size p.pool ≡ some 0)
          × (after
              ≡ record abt { pools = swap_remove abt.pools i; freed = pool_destroy p abt.freed })
    entry none at e = absurd (ground (arith, e))
    entry (some p) at e = elim (Bool-cases (p.refcount == 0)) [
      | inr n ↦ absurd (ground (arith, e, n))
      | inl y ↦ elim (Bool-cases (p.num_xstreams == 0)) [
        | inr n ↦ absurd (ground (arith, e, y, n))
        | inl z ↦
            let left =
              removed_of total_size abt after i p (total_size p.pool) (ground (arith, e, y, z)) in
            (p, at, ground (arith, y), ground (arith, z), left.0, left.1)
      ]
    ]

given_back :
    (p : PoolEntry) (freed : List ℕ) (h : ℕ)
    → times h (pool_destroy p freed)
      ≡ times h freed
        + one_if
            ((p.margo_free_flag && not p.used_by_primary && not (p.pool == null)) && (p.pool == h))
unfolding pool_destroy
given_back p freed h = ground arith

-- A removal that succeeds is of a pool with no references, that no stream counts in and that Argobots
-- finds empty. That pool, if it is margo's, not of the primary stream and not null, is given back to
-- Argobots once, and no other is; of the entries of the pools, just that one is gone, and the streams
-- are as before.
pub removed_pool_was_idle :
    (total_size : ℕ → Option ℕ) (abt after : Abt) (i : ℕ)
    → remove_pool total_size abt i ≡ (success, after)
    → (p : PoolEntry) × (get_elem? abt.pools i ≡ some p)
      × (p.refcount ≡ 0)
      × (p.num_xstreams ≡ 0)
      × (total_size p.pool ≡ some 0)
      × ((h : ℕ)
          → times h after.freed
            ≡ times h abt.freed
              + one_if (
                  (p.margo_free_flag && not p.used_by_primary && not (p.pool == null))
                  && (p.pool == h)))
      × ((test : PoolEntry → Bool)
          → number test after.pools + one_if (test p) ≡ number test abt.pools)
      × (after.xstreams ≡ abt.xstreams)
      × (after.joined ≡ abt.joined)
removed_pool_was_idle total_size abt after i e =
    let (p, at, no_ref, no_stream, empty, left) = removed_pool total_size abt after i e in
    (
      p,
      at,
      no_ref,
      no_stream,
      empty,
      λ h. ap (λ a. times h a.freed) left ∙ given_back p abt.freed h,
      λ test.
          let all = total-swap_remove (λ q. if test q then 1 else 0) abt.pools i p at in
          ap (λ a. number test a.pools + one_if (test p)) left ∙ all,
      ap (λ a. a.xstreams) left,
      ap (λ a. a.joined) left,
    )
