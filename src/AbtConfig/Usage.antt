-- ===== src/AbtConfig/Usage.antt =====
-- src/margo-abt-config.c: over any sequence of operations, the numbers in the entries of the pools
-- are the numbers of streams that run them.
use Prim.Native.String.{String}
use mochi_margo.Base.Text.{same_text}
use mochi_margo.Base.{
  ℕ, ◌+◌, ◌^◌, ◌<◌, ◌≡◌, ◌≢◌, ◌⊎◌, refl, ap, subst, Bool, true, false, Bool-cases, ◌==◌,
  if◌then◌else◌, null, Option, none, some, List, [], ◌∷◌, ◌++◌, arith, inl, inr,
}
use mochi_margo.Registry.Totals.{total, number, total-snoc, find_first-none}
use mochi_margo.AbtConfig.Entries.{PoolEntry, XstreamEntry, Abt, find_pool_by_handle}
use mochi_margo.AbtConfig.Pools.{Request, ask, pool_entry}
use mochi_margo.AbtConfig.Xstreams.{Argobots, Makers, Made, pools_of, counted, new_entry, start}
use mochi_margo.AbtConfig.Arrays.{push_pool, push_xstream}
use mochi_margo.AbtConfig.Counts.{has_handle, num_at, held, times, Fits, Unique}
use mochi_margo.AbtConfig.Creation.{given, counted-Ends, counted-Unique}

-- The pools that a stream runs, and how often the streams run a pool.
abbrev pub stream_pools : Argobots → ℕ → List ℕ
stream_pools A x = if x == null then [] else given (pools_of A (A.main_sched x))

abbrev pub runs : Argobots → ℕ → XstreamEntry → ℕ
runs A h x = times h (stream_pools A x.xstream)

abbrev pub demand : Argobots → ℕ → List XstreamEntry → ℕ
demand A h xstreams = total (runs A h) xstreams

-- The invariant: handles are of one entry each, and the numbers are those of the streams.
pub record Inv (A : Argobots) (abt : Abt) : Type 0 where
  pub unique : Unique abt.pools
  pub few : (h : ℕ) → held h abt.pools < 2 ^ 32
  pub counted : (h : ℕ) → held h abt.pools ≡ demand A h abt.xstreams
  pub real : demand A null abt.xstreams ≡ 0

-- What an initialisation may do to the pools.
abbrev pub Outcome : Argobots → List PoolEntry → Made → Type 0
Outcome A pools m =
    Unique m.pools
    × (((m.entry ≡ none) × ((h : ℕ) → held h m.pools ≡ held h pools))
        ⊎ ((x : XstreamEntry) × (m.entry ≡ some x)
            × ((h : ℕ) → held h m.pools ≡ held h pools + runs A h x)
            × ((h : ℕ) → held h m.pools < 2 ^ 32)
            × (runs A null x ≡ 0)))

-- No scheduler adds so many pools that a number would wrap around.
abbrev pub Roomy : Argobots → List PoolEntry → Type 0
Roomy A pools = (s : Option ℕ) → Fits pools (given (pools_of A s))

-- ABT_xstream_create gives a stream, and its main scheduler is the one it was given.
abbrev pub Starts : Argobots → Makers → Type 0
Starts A M =
    (s : ℕ) → (x : ℕ) × (M.create_xstream s ≡ some x) × (x ≢ null) × (A.main_sched x ≡ some s)

-- A pool that Argobots makes is not one that is registered.
abbrev pub Fresh : Makers → List PoolEntry → Type 0
Fresh M pools =
    (r : Request) (p : ℕ) → M.create_pool r ≡ some p → find_pool_by_handle pools p ≡ none

pub counted-Outcome :
    (A : Argobots) (x : XstreamEntry) (primary : Bool) (pools : List PoolEntry) (joined : List ℕ)
    (hs : Option (List (Option ℕ)))
    → x.xstream ≢ null
    → pools_of A (A.main_sched x.xstream) ≡ hs
    → Unique pools
    → Roomy A pools
    → Outcome A pools (counted A x primary pools joined hs)
counted-Outcome A x primary pools joined hs real same u roomy =
    let fits : Fits pools (given hs) = λ h.
      subst (λ l. held h pools + times h (given l) < 2 ^ 32) same
        (roomy (A.main_sched x.xstream) h) in
    let there : (x.xstream == null) ≡ false = ground (arith, real) in
    let own : stream_pools A x.xstream ≡ given hs = rw there (ap given same) in
    (
      counted-Unique A x primary pools joined hs real same u,
      elim (counted-Ends A x primary pools joined hs real same u fits) [
        | inl e ↦ inl e
        | inr (e, more, z) ↦ inr (
          x,
          e,
          λ h. omega (arith, more h, ap (times h) own),
          λ h. omega (arith, more h, fits h),
          omega (arith, z, ap (times null) own),
        )
      ],
    )

-- Nothing has happened yet.
pub untouched :
    (A : Argobots) (pools : List PoolEntry) (joined : List ℕ)
    → Unique pools
    → Outcome A pools (record { entry = none; pools = pools; joined = joined })
untouched A pools joined u = (u, inl (refl, λ h. refl))

pub start-Outcome :
    (A : Argobots) (M : Makers) (name type : String) (sched : Option ℕ) (pools : List PoolEntry)
    (joined : List ℕ)
    → same_text name "__primary__" ≡ false
    → Unique pools
    → Roomy A pools
    → Starts A M
    → Outcome A pools (start A M name type sched pools joined)
start-Outcome A M name type none pools joined other u roomy starts = untouched A pools joined u
start-Outcome A M name type (some sched) pools joined other u roomy starts =
    let (x, made, real, main) = starts sched in
    rw (other, made)
      (counted-Outcome A (new_entry name type x true) false pools joined (A.sched_pools sched) real
        (ap (pools_of A) main) u roomy)

pub push_xstream-Inv :
    (A : Argobots) (abt : Abt) (room : Option ℕ) (m : Made)
    → Outcome A abt.pools m
    → Inv A abt
    → Inv A (push_xstream abt room m).1
push_xstream-Inv A abt none m o v = v
push_xstream-Inv A abt (some n) m o v = elim o.1 [
  | inl (e, same) ↦ rw e (record {
    unique = o.0;
    few = λ h. omega (arith, same h, v.few h);
    counted = λ h. omega (arith, same h, v.counted h);
    real = v.real;
  })
  | inr (x, e, more, few, z) ↦
      let all : (h : ℕ)
          → demand A h (abt.xstreams ++ x ∷ []) ≡ demand A h abt.xstreams + runs A h x =
        λ h. total-snoc (runs A h) abt.xstreams x in
      rw e (record {
        unique = o.0;
        few = few;
        counted = λ h. omega (arith, more h, all h, v.counted h);
        real = omega (arith, all null, z, v.real);
      })
]

-- A pool that is new.
abbrev pub IsNew : List PoolEntry → Option PoolEntry → Type 0
IsNew pools none = Unit {0}
IsNew pools (some p) = (p.num_xstreams ≡ 0) × (find_pool_by_handle pools p.pool ≡ none)

not_there :
    (pools : List PoolEntry) (h : ℕ)
    → find_pool_by_handle pools h ≡ none
    → h ≢ null
    → number (has_handle h) pools ≡ 0
unfolding find_pool_by_handle
not_there pools h e real = find_first-none (has_handle h) pools (ground (arith, e, real))

snoc-Unique :
    (pools : List PoolEntry) (p : PoolEntry)
    → find_pool_by_handle pools p.pool ≡ none
    → Unique pools
    → Unique (pools ++ p ∷ [])
snoc-Unique pools p e u h real =
    let all = total-snoc (λ q. if q.pool == h then 1 else 0) pools p in
    elim (Bool-cases (p.pool == h)) [
      | inl y ↦
          let same : p.pool ≡ h = ground (arith, y) in
          let fresh =
            not_there pools h (subst (λ k. find_pool_by_handle pools k ≡ none) same e) real in
          ground (arith, all, y, fresh)
      | inr n ↦ ground (arith, all, n, u h real)
    ]

pub push_pool-Inv :
    (A : Argobots) (abt : Abt) (room : Option ℕ) (p : Option PoolEntry)
    → IsNew abt.pools p
    → Inv A abt
    → Inv A (push_pool abt room p).1
push_pool-Inv A abt none p n v = v
push_pool-Inv A abt (some k) none n v = record {
  unique = v.unique;
  few = v.few;
  counted = v.counted;
  real = v.real;
}
push_pool-Inv A abt (some k) (some p) n v =
    let same : (h : ℕ) → held h (abt.pools ++ p ∷ []) ≡ held h abt.pools =
      λ h. ground (arith, total-snoc (num_at h) abt.pools p, n.0) in
    record {
      unique = snoc-Unique abt.pools p n.1 v.unique;
      few = λ h. omega (arith, same h, v.few h);
      counted = λ h. omega (arith, same h, v.counted h);
      real = v.real;
    }

pub pool_entry-IsNew :
    (pools : List PoolEntry) (copied : Bool) (kind access : String) (pool : Option ℕ)
    (name : Option String)
    → ((p : ℕ) → pool ≡ some p → find_pool_by_handle pools p ≡ none)
    → IsNew pools (pool_entry copied kind access pool name)
pool_entry-IsNew pools true kind access (some p) (some name) f = (refl, f p refl)
pool_entry-IsNew pools true kind access (some p) none f = tt
pool_entry-IsNew pools true kind access none name f = tt
pool_entry-IsNew pools false kind access pool name f = tt

pub asked :
    (M : Makers) (pools : List PoolEntry) (r : Option Request)
    → Fresh M pools
    → (p : ℕ) → ask M.create_pool r ≡ some p
    → find_pool_by_handle pools p ≡ none
asked M pools none f p e = absurd (ground (arith, e))
asked M pools (some r) f p e = f r p e
