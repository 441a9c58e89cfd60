-- ===== src/Config/Pools.antt =====
-- src/margo-config.c: references and the two pools of an instance against removals.
use Prim.Native.String.{String}
use mochi_margo.Mercury.{HgReturn, success, permission}
use mochi_margo.Base.{
  ℕ, zero, suc, ◌+◌, ◌-◌, ◌%◌, ◌^◌, ◌<◌, ◌≤◌, ◌≡◌, ◌≢◌, ◌⊎◌, inl, inr, refl, ap, ◌∙◌, sym, false,
  Bool-cases, ◌==◌, if◌then◌else◌, null, Option, none, some, Option-cases, List, [], ◌∷◌, length,
  length-set, get_elem?-none, get_elem?, arith, set, take,
}
use mochi_margo.Registry.Defs.{swap_remove}
use mochi_margo.Registry.Totals.{number, total-swap_remove}
use mochi_margo.AbtConfig.Counts.{has_handle}
use mochi_margo.AbtConfig.Entries.{PoolEntry, Abt, find_pool_by_name, find_pool_by_handle}
use mochi_margo.AbtConfig.Xstreams.{pool_in, or_null}
use mochi_margo.AbtConfig.Arrays.{remove_pool, remove_empty}
use mochi_margo.AbtConfig.Lifetime.{removed_pool}
use mochi_margo.Config.Defs.{pool_slot, Key, LockEvent, ref_incr, one_ref_more, locate, at_index}
use mochi_margo.Config.Laws.{get_elem?-modify_at, incr_place, located}
use mochi_margo.Config.Instance.{
  Instance, progress_pool, rpc_pool, with_abt, remove_at, remove_found, remove_pool_by_index,
  remove_pool_by_name, remove_pool_by_handle,
}

-- A pool that a reference was added to is not removed, at whatever index the key leads to: the
-- removal is refused and changes nothing, if the number of references does not wrap around.
pub referenced_pool_stays :
    (total_size : ℕ → Option ℕ) (abt : Abt) (pools : List PoolEntry) (k : Key) (t : List LockEvent)
    (i : ℕ)
    → ((j : ℕ) (p : PoolEntry) → get_elem? abt.pools j ≡ some p → p.refcount + 1 < 2 ^ 32)
    → ref_incr pool_slot (some abt.pools) k ≡ (success, some pools, t)
    → locate pool_slot abt.pools k ≡ at_index i
    → remove_pool total_size (record abt { pools = pools }) i
      ≡ (permission, record abt { pools = pools })
unfolding remove_pool
referenced_pool_stays total_size abt pools k t i small e place =
    let (j, there, changed, _) = incr_place pool_slot abt.pools pools k t e in
    let same : i ≡ j = ground (arith, there, place) in
    let (p, at) = located pool_slot abt.pools k j there in
    let more : get_elem? pools i ≡ some (one_ref_more pool_slot p) =
      ap (get_elem? pools) same
      ∙ ap (λ l. get_elem? l j) changed
      ∙ get_elem?-modify_at (one_ref_more pool_slot) abt.pools j p at in
    let some_ref : ((p.refcount + 1) % 2 ^ 32 == 0) ≡ false = ground (arith, small j p at) in
    rw (more, some_ref) refl

-- The removals of a pool, by index, by name and by handle.
pub data Removal : Type 0 where
  of_index : ℕ → Removal
  of_name : Option String → Removal
  of_handle : ℕ → Removal

abbrev pub remove : (total_size : ℕ → Option ℕ) → Instance → Removal → HgReturn × Option Instance
remove total_size mid (of_index i) = remove_pool_by_index total_size (some mid) i
remove total_size mid (of_name s) = remove_pool_by_name total_size (some mid) s
remove total_size mid (of_handle h) = remove_pool_by_handle total_size (some mid) h

-- How many pools of the instance there are with a handle; none in a null instance.
abbrev pub registered : ℕ → Option Instance → ℕ
registered h none = 0
registered h (some mid) = number (has_handle h) mid.abt.pools

-- The pools with a handle that is not removed.
others_stay :
    (total_size : ℕ → Option ℕ) (abt : Abt) (i h : ℕ) (p : PoolEntry)
    → get_elem? abt.pools i ≡ some p
    → p.pool ≢ h
    → number (has_handle h) (remove_pool total_size abt i).1.pools ≡ number (has_handle h) abt.pools
unfolding remove_pool
others_stay total_size abt i h p at other = rw at (elim (Bool-cases (p.refcount == 0)) [
  | inr n ↦ rw n refl
  | inl y ↦ rw y (elim (Bool-cases (p.num_xstreams == 0)) [
    | inr n ↦ rw n refl
    | inl z ↦ rw z (by_size (total_size p.pool))
  ])
])
  where
    by_size :
        (o : Option ℕ)
        → number (has_handle h) (remove_empty abt i p o).1.pools ≡ number (has_handle h) abt.pools
    by_size none = refl
    by_size (some (suc n)) = refl
    by_size (some zero) =
        let there : (p.pool == h) ≡ false = ground (arith, other) in
        ground
          (arith, there, total-swap_remove (λ q. if q.pool == h then 1 else 0) abt.pools i p at)

module _ (total_size : ℕ → Option ℕ) (mid : Instance) (h : ℕ) where
  abbrev pub Stays : HgReturn × Option Instance → Type 0
  Stays r = registered h r.1 ≡ registered h (some mid)

  remove_at-Stays :
      (h ≡ progress_pool mid) ⊎ (h ≡ rpc_pool mid)
      → (i : ℕ) (o : Option PoolEntry) → get_elem? mid.abt.pools i ≡ o
      → Stays (remove_at total_size mid i o)
  remove_at-Stays own i none at = refl
  remove_at-Stays own i (some p) at = elim (Bool-cases (p.pool == progress_pool mid)) [
    | inl y ↦ rw y refl
    | inr n ↦ elim (Bool-cases (p.pool == rpc_pool mid)) [
      | inl y ↦ rw (n, y) refl
      | inr m ↦
          let other : p.pool ≢ h = elim own [
            | inl e ↦ ground (arith, n, e)
            | inr e ↦ ground (arith, m, e)
          ] in
          rw (n, m) (others_stay total_size mid.abt i h p at other)
    ]
  ]

  remove_found-Stays :
      (h ≡ progress_pool mid) ⊎ (h ≡ rpc_pool mid)
      → (o : Option ℕ) → Stays (remove_found total_size mid o)
  remove_found-Stays own none = refl
  remove_found-Stays own (some i) = remove_at-Stays own i (get_elem? mid.abt.pools i) refl

-- No removal, whether by index, by name or by handle, and whatever it returns, takes a pool that has
-- the handle of the progress pool or of the pool for RPCs.
pub own_pools_stay :
    (total_size : ℕ → Option ℕ) (mid : Instance) (r : Removal) (h : ℕ)
    → (h ≡ progress_pool mid) ⊎ (h ≡ rpc_pool mid)
    → registered h (remove total_size mid r).1 ≡ registered h (some mid)
unfolding remove_pool_by_index remove_pool_by_name remove_pool_by_handle
own_pools_stay total_size mid (of_index i) h own =
    remove_at-Stays total_size mid h own i (get_elem? mid.abt.pools i) refl
own_pools_stay total_size mid (of_name s) h own =
    remove_found-Stays total_size mid h own (find_pool_by_name mid.abt.pools s)
own_pools_stay total_size mid (of_handle g) h own =
    remove_found-Stays total_size mid h own (find_pool_by_handle mid.abt.pools g)

length-take : {A : Type 0} (n : ℕ) (xs : List A) → n ≤ length xs → length (take n xs) ≡ n
length-take zero xs h = refl
length-take (suc n) [] h = absurd (omega (arith, h))
length-take (suc n) (x ∷ xs) h = ap suc (length-take n xs (omega (arith, h)))

-- The slot of the last entry is empty after a removal.
last_slot :
    (pools : List PoolEntry) (i : ℕ) (p : PoolEntry)
    → get_elem? pools i ≡ some p
    → get_elem? (swap_remove pools i) (length pools - 1) ≡ none
unfolding swap_remove
last_slot pools i p at = elim (Option-cases (get_elem? pools (length pools - 1))) [
  | inl n ↦ rw (n, n) refl
  | inr (q, last) ↦
      let size : length (take (length pools - 1) (set pools i q)) ≡ length pools - 1 =
        length-take (length pools - 1) (set pools i q) (omega (arith, length-set pools i q)) in
      rw last (
        get_elem?-none (take (length pools - 1) (set pools i q)) (length pools - 1)
          (omega (arith, size)))
]

-- A removal by index that succeeds is one from the arrays.
removed_inside :
    (total_size : ℕ → Option ℕ) (mid after : Instance) (i : ℕ) (o : Option PoolEntry)
    → remove_at total_size mid i o ≡ (success, some after)
    → (abt : Abt) × (remove_pool total_size mid.abt i ≡ (success, abt)) × (with_abt mid abt ≡ after)
removed_inside total_size mid after i none e = absurd (ground (arith, e))
removed_inside total_size mid after i (some p) e = elim (Bool-cases (p.pool == progress_pool mid)) [
  | inl y ↦ absurd (ground (arith, e, y))
  | inr n ↦ elim (Bool-cases (p.pool == rpc_pool mid)) [
    | inl y ↦ absurd (ground (arith, e, n, y))
    | inr m ↦ (
      (remove_pool total_size mid.abt i).1,
      ap (λ c. (c, (remove_pool total_size mid.abt i).1)) (ground (arith, e, n, m)),
      ground (arith, e, n, m),
    )
  ]
]

-- When a pool is removed while the progress pool is the last entry, the entry moves but its index in
-- the instance does not: the progress pool of the instance reads as null right after the removal.
pub moved_progress_pool :
    (total_size : ℕ → Option ℕ) (mid after : Instance) (i : ℕ)
    → mid.progress_pool_idx ≡ length mid.abt.pools - 1
    → remove_pool_by_index total_size (some mid) i ≡ (success, some after)
    → progress_pool after ≡ null
unfolding remove_pool_by_index
moved_progress_pool total_size mid after i last e =
    let (abt, gone, same) = removed_inside total_size mid after i (get_elem? mid.abt.pools i) e in
    let (p, at, _, _, _, changed) = removed_pool total_size mid.abt abt i gone in
    let slot : get_elem? abt.pools mid.progress_pool_idx ≡ none =
      ap (λ a. get_elem? a.pools mid.progress_pool_idx) changed
      ∙ ap (get_elem? (swap_remove mid.abt.pools i)) last
      ∙ last_slot mid.abt.pools i p at in
    ap progress_pool (sym same) ∙ ap (λ o. or_null (pool_in o)) slot
