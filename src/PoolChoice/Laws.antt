-- ===== src/PoolChoice/Laws.antt =====
-- src/margo-init.c: the indices that are chosen lead to the pools that the caller gave.
use Prim.Native.String.{String}
use mochi_margo.Base.{
  ℕ, zero, suc, ◌≡◌, ◌≢◌, refl, Bool, true, false, Bool-cases, not, ◌&&◌, ◌==◌, null, Option, none,
  some, List, length, arith, inl, inr, Option-cases,
}
use mochi_margo.AbtConfig.Json.{Json}
use mochi_margo.AbtConfig.Entries.{PoolEntry, Abt}
use mochi_margo.AbtConfig.Xstreams.{Argobots, Makers, handle_at, or_null}
use mochi_margo.AbtConfig.Arrays.{add_external_pool}
use mochi_margo.PoolChoice.Defs.{
  Wishes, Chosen, when_added, add_pool, add_xstream, add_xstreams, made_progress, unasked_progress,
  added, choose_progress, choose_rpc,
}
use mochi_margo.PoolChoice.Handles.{
  Extends, Same-Extends, add_external-Extends, add_external-last, add_pool-Extends,
  add_xstream-Same,
}

-- What a choice keeps: the handles that there were.
abbrev pub Keeps : List PoolEntry → Chosen → Type 0
Keeps pools none = Unit {0}
Keeps pools (some (i, abt)) = Extends pools abt.pools

-- And what it leads to.
abbrev pub LeadsTo : ℕ → Chosen → Type 0
LeadsTo pool none = Unit {0}
LeadsTo pool (some (i, abt)) = handle_at abt.pools i ≡ some pool

module _ (J : Json) (pool_object : J.Value) (xstream_object : ℕ → J.Value) (numbered : ℕ → String)
    (before_two memory copied : Bool) (A : Argobots) (M : ℕ → Makers) where
  abbrev progress_of : Wishes J.Value → (primary primary_pool : ℕ) → Abt → Chosen
  progress_of = choose_progress J pool_object xstream_object numbered before_two memory copied A M

  abbrev rpc_of : Wishes J.Value → (primary primary_pool : ℕ) → (progress : Option ℕ) → Abt → Chosen
  rpc_of = choose_rpc J pool_object xstream_object numbered before_two memory copied A M

  through :
      (pools middle : List PoolEntry)
      → Extends pools middle
      → (c : Chosen) → Keeps middle c
      → Keeps pools c
  through pools middle e none k = tt
  through pools middle e (some (i, b)) k = λ j h q. k j h (e j h q)

  pub then_Keeps :
      (pools : List PoolEntry) (r : Bool × Abt) (rest : Abt → Chosen)
      → Extends pools r.1.pools
      → ((abt : Abt) → Keeps abt.pools (rest abt))
      → Keeps pools (when_added r rest)
  then_Keeps pools (false, abt) rest e k = tt
  then_Keeps pools (true, abt) rest e k = through pools abt.pools e (rest abt) (k abt)

  pub add_pool-Keeps :
      (i : ℕ) (abt : Abt)
      → Extends abt.pools
          (add_pool J pool_object xstream_object numbered before_two memory copied A M i
            abt).1.pools
  add_pool-Keeps i abt =
      add_pool-Extends J numbered before_two true memory copied (M i) abt (some pool_object)

  add_xstream-Keeps :
      (i index : ℕ) (abt : Abt)
      → Extends abt.pools
          (add_xstream J pool_object xstream_object numbered before_two memory copied A M i index
            abt).1.pools
  add_xstream-Keeps i index abt =
      Same-Extends abt.pools
        (add_xstream J pool_object xstream_object numbered before_two memory copied A M i index
          abt).1.pools
        (add_xstream-Same J numbered before_two true memory copied (M i) abt A
          (some (xstream_object index)))

  pub add_xstreams-Keeps :
      (n i index : ℕ) (abt : Abt)
      → Keeps abt.pools (
          add_xstreams J pool_object xstream_object numbered before_two memory copied A M n i index
            abt)
  unfolding add_xstreams
  add_xstreams-Keeps zero i index abt = λ j h q. q
  add_xstreams-Keeps (suc n) i index abt =
      then_Keeps abt.pools
        (add_xstream J pool_object xstream_object numbered before_two memory copied A M i index abt)
        (add_xstreams J pool_object xstream_object numbered before_two memory copied A M n (suc i)
          index)
        (add_xstream-Keeps i index abt) (add_xstreams-Keeps n (suc i) index)

  pub added-Keeps :
      (abt : Abt) (pool : ℕ)
      → Keeps abt.pools
          (added J pool_object xstream_object numbered before_two memory copied A M abt pool)
  added-Keeps abt pool =
      then_Keeps abt.pools (add_external_pool numbered memory abt none pool)
        (λ b. some (some (length abt.pools), b))
        (add_external-Extends numbered memory abt none pool) (λ b j h q. q)

  made_progress-Keeps :
      (abt : Abt)
      → Keeps abt.pools
          (made_progress J pool_object xstream_object numbered before_two memory copied A M abt)
  made_progress-Keeps abt =
      then_Keeps abt.pools
        (add_pool J pool_object xstream_object numbered before_two memory copied A M 0 abt)
        (λ b.
          when_added
            (add_xstream J pool_object xstream_object numbered before_two memory copied A M 1
              (length abt.pools) b)
            (λ c. some (some (length abt.pools), c)))
        (add_pool-Keeps 0 abt)
        (λ b.
          then_Keeps b.pools
            (add_xstream J pool_object xstream_object numbered before_two memory copied A M 1
              (length abt.pools) b)
            (λ c. some (some (length abt.pools), c)) (add_xstream-Keeps 1 (length abt.pools) b)
            (λ c j h q. q))

  pub added-LeadsTo :
      (abt : Abt) (pool : ℕ)
      → LeadsTo pool
          (added J pool_object xstream_object numbered before_two memory copied A M abt pool)
  added-LeadsTo abt pool =
      last (add_external_pool numbered memory abt none pool)
        (add_external-last numbered memory abt none pool)
    where
      last :
          (r : Bool × Abt)
          → (r.0 ≡ true → handle_at r.1.pools (some (length abt.pools)) ≡ some pool)
          → LeadsTo pool (when_added r (λ b. some (some (length abt.pools), b)))
      last (false, b) e = tt
      last (true, b) e = e refl

  pub primary-leads :
      (pools : List PoolEntry) (primary pool : ℕ)
      → (not (or_null (handle_at pools (some primary)) == null)
          && (pool == or_null (handle_at pools (some primary))))
        ≡ true
      → handle_at pools (some primary) ≡ some pool
  primary-leads pools primary pool e = elim (Option-cases (handle_at pools (some primary))) [
    | inl n ↦ absurd (ground (arith, e, n))
    | inr (h, f) ↦ let same : pool ≡ h = ground (arith, e, f) in rw same f
  ]

  unasked_progress-Keeps :
      (v : Option J.Value) (b : Bool) (primary : ℕ) (abt : Abt)
      → Keeps abt.pools (
          unasked_progress J pool_object xstream_object numbered before_two memory copied A M v b
            primary abt)
  unasked_progress-Keeps (some v) b primary abt = λ j h q. q
  unasked_progress-Keeps none true primary abt = made_progress-Keeps abt
  unasked_progress-Keeps none false primary abt = λ j h q. q

  pub choose_progress-Keeps :
      (w : Wishes J.Value) (primary primary_pool : ℕ) (abt : Abt)
      → Keeps abt.pools (progress_of w primary primary_pool abt)
  unfolding choose_progress
  choose_progress-Keeps w primary primary_pool abt =
      elim (Bool-cases (not (primary_pool == null) && (w.progress_pool == primary_pool))) [
        | inl y ↦ rw y (λ j h q. q)
        | inr n ↦ elim (Bool-cases (w.progress_pool == null)) [
          | inl z ↦
              rw (n, z) (unasked_progress-Keeps w.jprogress_pool w.use_progress_thread primary abt)
          | inr m ↦ rw (n, m) (added-Keeps abt w.progress_pool)
        ]
      ]

  pub choose_progress-LeadsTo :
      (w : Wishes J.Value) (primary : ℕ) (abt : Abt)
      → w.progress_pool ≢ null
      → LeadsTo w.progress_pool
          (progress_of w primary (or_null (handle_at abt.pools (some primary))) abt)
  unfolding choose_progress
  choose_progress-LeadsTo w primary abt given =
      elim (Bool-cases (
        not (or_null (handle_at abt.pools (some primary)) == null)
        && (w.progress_pool == or_null (handle_at abt.pools (some primary))))) [
          | inl y ↦ rw y (primary-leads abt.pools primary w.progress_pool y)
          | inr n ↦
              let m : (w.progress_pool == null) ≡ false = ground (arith, given) in
              rw (n, m) (added-LeadsTo abt w.progress_pool)
        ]
