-- ===== src/PoolChoice/Chosen.antt =====
-- src/margo-init.c: the pools that a caller gives are the pools that are chosen.
use Prim.Native.String.{String}
use mathlib.Core.Option.{some-injective}
use mochi_margo.Base.{
  ℕ, zero, suc, ◌≡◌, ◌≢◌, ap, ◌∙◌, subst, Bool, true, false, Bool-cases, not, ◌&&◌, ◌==◌, ltb,
  if◌then◌else◌, null, Option, none, some, List, length, arith, inl, inr,
}
use mochi_margo.AbtConfig.Json.{Json}
use mochi_margo.AbtConfig.Entries.{PoolEntry, Abt, find_pool_by_name}
use mochi_margo.AbtConfig.Xstreams.{Argobots, Makers, handle_at, or_null}
use mochi_margo.PoolChoice.Defs.{
  ThreadCount, below_zero, threads, Wishes, Chosen, add_pool, add_xstreams, choose_progress,
  by_threads, unasked_rpc, choose_rpc, tested, then_tested, then_rpc, from_primary, choose_pools,
}
use mochi_margo.PoolChoice.Laws.{
  Keeps, LeadsTo, then_Keeps, add_pool-Keeps, add_xstreams-Keeps, added-Keeps, added-LeadsTo,
  primary-leads, choose_progress-Keeps, choose_progress-LeadsTo,
}

-- What was asked for is what the indices lead to.
abbrev pub Granted : (progress_pool rpc_pool : ℕ) → ℕ × ℕ × Abt → Type 0
Granted progress_pool rpc_pool t =
    (progress_pool ≢ null → handle_at t.2.pools (some t.0) ≡ some progress_pool)
    × (rpc_pool ≢ null → handle_at t.2.pools (some t.1) ≡ some rpc_pool)

kept_at :
    (pools : List PoolEntry) (progress rpc : Option ℕ) (abt : Abt) (pool : ℕ)
    → Keeps pools (some (rpc, abt))
    → handle_at pools progress ≡ some pool
    → handle_at abt.pools progress ≡ some pool
kept_at pools none rpc abt pool k e = e
kept_at pools (some i) rpc abt pool k e = k i pool e

module _ (J : Json) (pool_object : J.Value) (xstream_object : ℕ → J.Value) (numbered : ℕ → String)
    (before_two memory copied : Bool) (A : Argobots) (M : ℕ → Makers) where
  tested-Granted :
      (progress rpc : Option ℕ) (abt : Abt) (given_progress given_rpc : ℕ) (t : ℕ × ℕ × Abt)
      → (given_progress ≢ null → handle_at abt.pools progress ≡ some given_progress)
      → (given_rpc ≢ null → handle_at abt.pools rpc ≡ some given_rpc)
      → tested J pool_object xstream_object numbered before_two memory copied A M progress rpc abt
        ≡ some t
      → Granted given_progress given_rpc t
  tested-Granted none none abt gp gr t f g e = absurd (ground (arith, e))
  tested-Granted none (some r) abt gp gr t f g e = absurd (ground (arith, e))
  tested-Granted (some p) none abt gp gr t f g e = absurd (ground (arith, e))
  tested-Granted (some p) (some r) abt gp gr t f g e =
      elim (Bool-cases (ltb p (length abt.pools) && ltb r (length abt.pools))) [
        | inl y ↦
            let same : some (p, r, abt) ≡ some t =
              subst (λ b. (if b then some (p, r, abt) else none) ≡ some t) y e in
            subst (Granted gp gr) (some-injective (p, r, abt) t same) (f, g)
        | inr n ↦
            let refused : none ≡ some t =
              subst (λ b. (if b then some (p, r, abt) else none) ≡ some t) n e in
            absurd (ground (arith, refused))
      ]

  abbrev rpc_of : Wishes J.Value → (primary primary_pool : ℕ) → (progress : Option ℕ) → Abt → Chosen
  rpc_of = choose_rpc J pool_object xstream_object numbered before_two memory copied A M

  by_threads-Keeps :
      (count : ThreadCount) (primary : ℕ) (progress : Option ℕ) (abt : Abt)
      → Keeps abt.pools (
          by_threads J pool_object xstream_object numbered before_two memory copied A M count
            primary progress abt)
  by_threads-Keeps below_zero primary progress abt = λ j h q. q
  by_threads-Keeps (threads zero) primary progress abt = λ j h q. q
  by_threads-Keeps (threads (suc n)) primary progress abt =
      then_Keeps J pool_object xstream_object numbered before_two memory copied A M abt.pools
        (add_pool J pool_object xstream_object numbered before_two memory copied A M 2 abt)
        (add_xstreams J pool_object xstream_object numbered before_two memory copied A M (suc n) 3
          (length abt.pools))
        (add_pool-Keeps J pool_object xstream_object numbered before_two memory copied A M 2 abt)
        (add_xstreams-Keeps J pool_object xstream_object numbered before_two memory copied A M
          (suc n) 3 (length abt.pools))

  unasked_rpc-Keeps :
      (v : Option J.Value) (count : ThreadCount) (primary : ℕ) (progress : Option ℕ) (abt : Abt)
      → Keeps abt.pools (
          unasked_rpc J pool_object xstream_object numbered before_two memory copied A M v count
            primary progress abt)
  unasked_rpc-Keeps (some v) count primary progress abt = λ j h q. q
  unasked_rpc-Keeps none count primary progress abt = by_threads-Keeps count primary progress abt

  choose_rpc-Keeps :
      (w : Wishes J.Value) (primary primary_pool : ℕ) (progress : Option ℕ) (abt : Abt)
      → Keeps abt.pools (rpc_of w primary primary_pool progress abt)
  unfolding choose_rpc
  choose_rpc-Keeps w primary primary_pool progress abt =
      elim (Bool-cases (not (primary_pool == null) && (w.rpc_pool == primary_pool))) [
        | inl y ↦ rw y (λ j h q. q)
        | inr n ↦
            elim (Bool-cases (not (w.progress_pool == null) && (w.rpc_pool == w.progress_pool))) [
              | inl y ↦ rw (n, y) (λ j h q. q)
              | inr m ↦ elim (Bool-cases (w.rpc_pool == null)) [
                | inl z ↦
                    rw (n, m, z)
                      (unasked_rpc-Keeps w.jrpc_pool w.rpc_thread_count primary progress abt)
                | inr o ↦
                    rw (n, m, o)
                      (added-Keeps J pool_object xstream_object numbered before_two memory copied A
                        M abt w.rpc_pool)
              ]
            ]
      ]

  choose_rpc-LeadsTo :
      (w : Wishes J.Value) (primary primary_pool : ℕ) (progress : Option ℕ) (abt : Abt)
      → ((not (primary_pool == null) && (w.rpc_pool == primary_pool)) ≡ true
          → handle_at abt.pools (some primary) ≡ some w.rpc_pool)
      → (w.progress_pool ≢ null → handle_at abt.pools progress ≡ some w.progress_pool)
      → w.rpc_pool ≢ null
      → LeadsTo w.rpc_pool (rpc_of w primary primary_pool progress abt)
  unfolding choose_rpc
  choose_rpc-LeadsTo w primary primary_pool progress abt at_primary at_progress given =
      elim (Bool-cases (not (primary_pool == null) && (w.rpc_pool == primary_pool))) [
        | inl y ↦ rw y (at_primary y)
        | inr n ↦
            elim (Bool-cases (not (w.progress_pool == null) && (w.rpc_pool == w.progress_pool))) [
              | inl y ↦
                  let same : w.progress_pool ≡ w.rpc_pool = ground (arith, y) in
                  let real : w.progress_pool ≢ null = λ z. ground (arith, y, z) in
                  rw (n, y) (at_progress real ∙ ap some same)
              | inr m ↦
                  let o : (w.rpc_pool == null) ≡ false = ground (arith, given) in
                  rw (n, m, o)
                    (added-LeadsTo J pool_object xstream_object numbered before_two memory copied A
                      M abt w.rpc_pool)
            ]
      ]

  then_tested-Granted :
      (w : Wishes J.Value) (pools : List PoolEntry) (progress : Option ℕ) (d : Chosen)
      (t : ℕ × ℕ × Abt)
      → Keeps pools d
      → (w.progress_pool ≢ null → handle_at pools progress ≡ some w.progress_pool)
      → (w.rpc_pool ≢ null → LeadsTo w.rpc_pool d)
      → then_tested J pool_object xstream_object numbered before_two memory copied A M progress d
        ≡ some t
      → Granted w.progress_pool w.rpc_pool t
  then_tested-Granted w pools progress none t k f g e = absurd (ground (arith, e))
  then_tested-Granted w pools progress (some (rpc, abt)) t k f g e =
      tested-Granted progress rpc abt w.progress_pool w.rpc_pool t
        (λ real. kept_at pools progress rpc abt w.progress_pool k (f real)) g e

  then_rpc-Granted :
      (w : Wishes J.Value) (primary primary_pool : ℕ) (pools : List PoolEntry) (c : Chosen)
      (t : ℕ × ℕ × Abt)
      → Keeps pools c
      → (w.progress_pool ≢ null → LeadsTo w.progress_pool c)
      → ((not (primary_pool == null) && (w.rpc_pool == primary_pool)) ≡ true
          → handle_at pools (some primary) ≡ some w.rpc_pool)
      → then_rpc J pool_object xstream_object numbered before_two memory copied A M w primary
          primary_pool c
        ≡ some t
      → Granted w.progress_pool w.rpc_pool t
  then_rpc-Granted w primary primary_pool pools none t k f g e = absurd (ground (arith, e))
  then_rpc-Granted w primary primary_pool pools (some (progress, abt)) t k f g e =
      then_tested-Granted w abt.pools progress (rpc_of w primary primary_pool progress abt) t
        (choose_rpc-Keeps w primary primary_pool progress abt) f
        (choose_rpc-LeadsTo w primary primary_pool progress abt (λ y. k primary w.rpc_pool (g y)) f)
        e

  from_primary-Granted :
      (w : Wishes J.Value) (abt : Abt) (o : Option ℕ) (t : ℕ × ℕ × Abt)
      → from_primary J pool_object xstream_object numbered before_two memory copied A M w abt o
        ≡ some t
      → Granted w.progress_pool w.rpc_pool t
  from_primary-Granted w abt none t e = absurd (ground (arith, e))
  from_primary-Granted w abt (some primary) t e =
      let primary_pool = or_null (handle_at abt.pools (some primary)) in
      then_rpc-Granted w primary primary_pool abt.pools
        (choose_progress J pool_object xstream_object numbered before_two memory copied A M w
          primary primary_pool abt)
        t
        (choose_progress-Keeps J pool_object xstream_object numbered before_two memory copied A M w
          primary primary_pool abt)
        (choose_progress-LeadsTo J pool_object xstream_object numbered before_two memory copied A M
          w primary abt)
        (primary-leads J pool_object xstream_object numbered before_two memory copied A M abt.pools
          primary w.rpc_pool)
        e

  -- When the choice of the pools succeeds, the index of the progress pool leads, in the arrays as they
  -- are then, to the pool that the caller gave for progress, and the index of the pool for RPCs to the
  -- pool that the caller gave for RPCs, each where one was given, whatever the configuration says and
  -- whichever pools and streams were added.
  pub external_pools_chosen :
      (w : Wishes J.Value) (abt : Abt) (t : ℕ × ℕ × Abt)
      → choose_pools J pool_object xstream_object numbered before_two memory copied A M w abt
        ≡ some t
      → (w.progress_pool ≢ null → handle_at t.2.pools (some t.0) ≡ some w.progress_pool)
        × (w.rpc_pool ≢ null → handle_at t.2.pools (some t.1) ≡ some w.rpc_pool)
  unfolding choose_pools
  external_pools_chosen w abt t e =
      from_primary-Granted w abt (find_pool_by_name abt.pools (some "__primary__")) t e
