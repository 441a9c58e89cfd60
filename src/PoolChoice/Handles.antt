-- ===== src/PoolChoice/Handles.antt =====
-- src/margo-abt-config.c: additions to the arrays keep the handle at every index.
use Prim.Native.String.{String}
use mochi_margo.Base.{
  ℕ, zero, suc, ◌≡◌, refl, ap, ◌∙◌, Bool, true, false, Bool-cases, ◌==◌, null, Option, none, some,
  List, [], ◌∷◌, ◌++◌, length, arith, inl, inr, Option-cases,
}
use mochi_margo.Base.Text.{same_text}
use mochi_margo.Registry.Defs.{modify_at}
use mochi_margo.AbtConfig.Json.{Json, get}
use mochi_margo.AbtConfig.Entries.{PoolEntry, XstreamEntry, Abt, find_pool_by_handle}
use mochi_margo.AbtConfig.Pools.{
  external_entry, name_or_unused, pool_names, pool_init_external, pool_init_from_json, text_of,
}
use mochi_margo.AbtConfig.Xstreams.{
  Argobots, Makers, Made, one_more, one_less, count, count_all, pools_of, handle_at,
  xstream_destroy, counted, new_entry, start_primary, start_named, xstream_init_from_json,
  sched_init_from_json, xstream_names, or_null,
}
use mochi_margo.AbtConfig.Arrays.{
  grow, push_pool, push_xstream, pool_refused, xstream_refused, external_pool_refused,
  add_pool_from_json, add_xstream_from_json, add_external_pool,
}
use mochi_margo.AbtConfig.Counts.{KeepsHandle}

-- The same handle at every index; and at every index that had one.
abbrev pub Same : List PoolEntry → List PoolEntry → Type 0
Same pools after = (i : ℕ) → handle_at after (some i) ≡ handle_at pools (some i)

abbrev pub Extends : List PoolEntry → List PoolEntry → Type 0
Extends pools after =
    (i h : ℕ) → handle_at pools (some i) ≡ some h → handle_at after (some i) ≡ some h

pub Same-Extends : (pools after : List PoolEntry) → Same pools after → Extends pools after
Same-Extends pools after s i h e = s i ∙ e

append-Extends : (pools : List PoolEntry) (p : PoolEntry) → Extends pools (pools ++ p ∷ [])
append-Extends [] p i h e = absurd (ground (arith, e))
append-Extends (q ∷ pools) p zero h e = e
append-Extends (q ∷ pools) p (suc i) h e = append-Extends pools p i h e

append-last :
    (pools : List PoolEntry) (p : PoolEntry)
    → handle_at (pools ++ p ∷ []) (some (length pools)) ≡ some p.pool
append-last [] p = refl
append-last (q ∷ pools) p = append-last pools p

module _ (change : PoolEntry → PoolEntry) (keeps : KeepsHandle change) where
  modify_at-Same : (pools : List PoolEntry) (j : ℕ) → Same pools (modify_at j change pools)
  unfolding modify_at
  modify_at-Same [] j i = refl
  modify_at-Same (q ∷ pools) zero zero = ap some (keeps q)
  modify_at-Same (q ∷ pools) zero (suc i) = refl
  modify_at-Same (q ∷ pools) (suc j) zero = refl
  modify_at-Same (q ∷ pools) (suc j) (suc i) = modify_at-Same pools j i

  count-Same :
      (pools : List PoolEntry) (hs : List (Option ℕ)) → Same pools (count change pools hs).0
  unfolding count
  count-Same pools [] i = refl
  count-Same pools (none ∷ hs) i = refl
  count-Same pools (some g ∷ hs) i = elim (Option-cases (find_pool_by_handle pools g)) [
    | inl n ↦ rw n refl
    | inr (j, f) ↦ rw f (count-Same (modify_at j change pools) hs i ∙ modify_at-Same pools j i)
  ]

  count_all-Same :
      (pools : List PoolEntry) (hs : Option (List (Option ℕ)))
      → Same pools (count_all change pools hs).0
  count_all-Same pools none i = refl
  count_all-Same pools (some hs) i = count-Same pools hs i

module _ (A : Argobots) where
  destroy-Same :
      (x : XstreamEntry) (pools : List PoolEntry) (joined : List ℕ)
      → Same pools (xstream_destroy A x pools joined).0
  unfolding xstream_destroy
  destroy-Same x pools joined i = elim (Bool-cases (x.xstream == null)) [
    | inl y ↦ rw y refl
    | inr n ↦
        rw n (count_all-Same one_less (λ p. refl) pools (pools_of A (A.main_sched x.xstream)) i)
  ]

  counted-Same :
      (x : XstreamEntry) (primary : Bool) (pools : List PoolEntry) (joined : List ℕ)
      (hs : Option (List (Option ℕ)))
      → Same pools (counted A x primary pools joined hs).pools
  unfolding counted
  counted-Same x primary pools joined hs i =
      let up = count_all (one_more primary) pools hs in
      let same = count_all-Same (one_more primary) (λ p. refl) pools hs i in
      elim (Bool-cases up.1) [
        | inl y ↦ rw y same
        | inr n ↦ rw n (destroy-Same x up.0 joined i ∙ same)
      ]

  start_primary-Same :
      (M : Makers) (type : String) (sched : ℕ) (self : Option ℕ) (pools : List PoolEntry)
      (joined : List ℕ)
      → Same pools (start_primary A M type sched self pools joined).pools
  start_primary-Same M type sched none pools joined i = refl
  start_primary-Same M type sched (some self) pools joined i =
      let x = new_entry "__primary__" type self false in
      elim (Bool-cases (M.set_main_sched self sched)) [
        | inl y ↦ rw y (counted-Same x true pools joined (A.sched_pools sched) i)
        | inr n ↦ rw n (destroy-Same x pools joined i)
      ]

  start_named-Same :
      (M : Makers) (copied : Bool) (name : Option String) (type : String) (sched : Option ℕ)
      (pools : List PoolEntry) (joined : List ℕ)
      → Same pools (start_named A M copied name (type, sched) pools joined).pools
  start_named-Same M false name type sched pools joined i = refl
  start_named-Same M true none type sched pools joined i = refl
  start_named-Same M true (some s) type none pools joined i = refl
  start_named-Same M true (some s) type (some sched) pools joined i =
      elim (Bool-cases (same_text s "__primary__")) [
        | inl y ↦ rw y (start_primary-Same M type sched M.self pools joined i)
        | inr n ↦ rw n (
            counted-Same (new_entry s type (or_null (M.create_xstream sched)) true) false pools
              joined (A.sched_pools sched) i)
      ]

push_xstream-Same :
    (abt : Abt) (room : Option ℕ) (m : Made)
    → Same abt.pools m.pools
    → Same abt.pools (push_xstream abt room m).1.pools
push_xstream-Same abt none m s i = refl
push_xstream-Same abt (some n) m s i = elim (Option-cases m.entry) [
  | inl e ↦ rw e (s i)
  | inr (x, e) ↦ rw e (s i)
]

push_pool-Extends :
    (abt : Abt) (room : Option ℕ) (p : Option PoolEntry)
    → Extends abt.pools (push_pool abt room p).1.pools
push_pool-Extends abt none p i h e = e
push_pool-Extends abt (some n) none i h e = e
push_pool-Extends abt (some n) (some p) i h e = append-Extends abt.pools p i h e

module _ (numbered : ℕ → String) (memory : Bool) (abt : Abt) where
  pub add_external-Extends :
      (name : Option String) (pool : ℕ)
      → Extends abt.pools (add_external_pool numbered memory abt name pool).1.pools
  unfolding add_external_pool
  add_external-Extends name pool i h e = elim (Bool-cases (external_pool_refused abt name pool)) [
    | inl y ↦ rw y e
    | inr n ↦ rw n (
        push_pool-Extends abt (grow memory (length abt.pools) abt.pools_cap)
          (pool_init_external numbered abt.pools name pool) i h e)
  ]

  last_pushed :
      (room : Option ℕ) (name : Option String) (pool : ℕ)
      → (push_pool abt room (external_entry pool name)).0 ≡ true
      → handle_at (push_pool abt room (external_entry pool name)).1.pools (some (length abt.pools))
        ≡ some pool
  last_pushed none name pool e = absurd (ground (arith, e))
  last_pushed (some n) none pool e = absurd (ground (arith, e))
  last_pushed (some n) (some s) pool e = append-last abt.pools (record {
    name = s;
    pool = pool;
    kind = "external";
    access = none;
    refcount = 0;
    num_xstreams = 0;
    margo_free_flag = false;
    used_by_primary = false;
  })

  pub add_external-last :
      (name : Option String) (pool : ℕ)
      → (add_external_pool numbered memory abt name pool).0 ≡ true
      → handle_at
          (add_external_pool numbered memory abt name pool).1.pools
          (some (length abt.pools))
        ≡ some pool
  unfolding add_external_pool pool_init_external
  add_external-last name pool e =
      let own = name_or_unused numbered (pool_names abt.pools) name in
      elim (Bool-cases (external_pool_refused abt name pool)) [
        | inl y ↦ absurd (ground (arith, e, y))
        | inr n ↦ rw n (
            last_pushed (grow memory (length abt.pools) abt.pools_cap) own pool
              (ground (arith, e, n)))
      ]

module _ (J : Json) (numbered : ℕ → String) (before_two abt_runs memory copied : Bool) (M : Makers)
    (abt : Abt) where
  pub add_pool-Extends :
      (config : Option J.Value)
      → Extends abt.pools
          (add_pool_from_json J numbered before_two abt_runs memory copied M abt config).1.pools
  unfolding add_pool_from_json
  add_pool-Extends config i h e = elim (Bool-cases (pool_refused J abt_runs abt config)) [
    | inl y ↦ rw y e
    | inr n ↦ rw n (
        push_pool-Extends abt (grow memory (length abt.pools) abt.pools_cap)
          (pool_init_from_json J numbered before_two copied M.create_pool abt.pools config) i h e)
  ]

  pub add_xstream-Same :
      (A : Argobots) (config : Option J.Value)
      → Same abt.pools
          (add_xstream_from_json J numbered before_two abt_runs memory copied M A abt
            config).1.pools
  unfolding add_xstream_from_json xstream_init_from_json
  add_xstream-Same A config i =
      let name =
        name_or_unused numbered (xstream_names abt.xstreams) (text_of J (get J config "name")) in
      let sched = sched_init_from_json J M abt.pools (get J config "scheduler") in
      elim (Bool-cases (xstream_refused J before_two abt_runs abt config)) [
        | inl y ↦ rw y refl
        | inr n ↦ rw n (
            push_xstream-Same abt (grow memory (length abt.xstreams) abt.xstreams_cap)
              (start_named A M copied name sched abt.pools abt.joined)
              (start_named-Same A M copied name sched.0 sched.1 abt.pools abt.joined) i)
      ]
