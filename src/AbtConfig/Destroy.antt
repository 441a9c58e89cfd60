-- ===== src/AbtConfig/Destroy.antt =====
-- src/margo-abt-config.c: what is given back to Argobots when the arrays are destroyed.
use mochi_margo.Base.{
  ℕ, ◌+◌, ◌≡◌, refl, ◌∙◌, Bool, Bool-cases, ◌&&◌, not, ◌==◌, if◌then◌else◌, null, Option, none,
  some, List, [], ◌∷◌, arith, inl, inr, Option-cases,
}
use mochi_margo.Registry.Defs.{modify_at}
use mochi_margo.Registry.Totals.{number, total-modify_at}
use mochi_margo.AbtConfig.Entries.{PoolEntry, XstreamEntry, Abt, find_pool_by_handle}
use mochi_margo.AbtConfig.Pools.{pool_destroy}
use mochi_margo.AbtConfig.Xstreams.{Argobots, one_less, count, count_all, pools_of, xstream_destroy}
use mochi_margo.AbtConfig.Counts.{found, one_if, times}
use mochi_margo.AbtConfig.Init.{destroy_xstreams, destroy_pools, abt_destroy}

-- The entries that are margo's to give back, with a handle.
abbrev pub gives_pool : ℕ → PoolEntry → Bool
gives_pool h p =
    (p.margo_free_flag && not p.used_by_primary && not (p.pool == null)) && (p.pool == h)

abbrev pub gives_xstream : ℕ → XstreamEntry → Bool
gives_xstream h x = (x.margo_free_flag && not (x.xstream == null)) && (x.xstream == h)

number-count :
    (h : ℕ) (pools : List PoolEntry) (hs : List (Option ℕ))
    → number (gives_pool h) (count one_less pools hs).0 ≡ number (gives_pool h) pools
unfolding count
number-count h pools [] = refl
number-count h pools (none ∷ hs) = refl
number-count h pools (some g ∷ hs) = elim (Option-cases (find_pool_by_handle pools g)) [
  | inl n ↦ rw n refl
  | inr (i, f) ↦
      let (p, at, _) = found pools g i f in
      let all = total-modify_at (λ q. if gives_pool h q then 1 else 0) one_less pools i p at in
      rw f (number-count h (modify_at i one_less pools) hs ∙ omega (arith, all))
]

number-count_all :
    (h : ℕ) (pools : List PoolEntry) (hs : Option (List (Option ℕ)))
    → number (gives_pool h) (count_all one_less pools hs).0 ≡ number (gives_pool h) pools
number-count_all h pools none = refl
number-count_all h pools (some hs) = number-count h pools hs

module _ (A : Argobots) (h : ℕ) where
  xstream_destroy-gives :
      (x : XstreamEntry) (pools : List PoolEntry) (joined : List ℕ)
      → (number (gives_pool h) (xstream_destroy A x pools joined).0 ≡ number (gives_pool h) pools)
        × (times h (xstream_destroy A x pools joined).1
            ≡ times h joined + one_if (gives_xstream h x))
  unfolding xstream_destroy
  xstream_destroy-gives x pools joined = elim (Bool-cases (x.xstream == null)) [
    | inl y ↦ rw y (refl, ground (arith, y))
    | inr n ↦
        rw n (number-count_all h pools (pools_of A (A.main_sched x.xstream)), ground (arith, n))
  ]

  destroy_xstreams-gives :
      (xs : List XstreamEntry) (pools : List PoolEntry) (joined : List ℕ)
      → (number (gives_pool h) (destroy_xstreams A xs pools joined).0 ≡ number (gives_pool h) pools)
        × (times h (destroy_xstreams A xs pools joined).1
            ≡ times h joined + number (gives_xstream h) xs)
  unfolding destroy_xstreams
  destroy_xstreams-gives [] pools joined = (refl, omega arith)
  destroy_xstreams-gives (x ∷ xs) pools joined =
      let first = xstream_destroy-gives x pools joined in
      let d = xstream_destroy A x pools joined in
      let rest = destroy_xstreams-gives xs d.0 d.1 in
      (rest.0 ∙ first.0, omega (arith, rest.1, first.1))

  destroy_pools-gives :
      (pools : List PoolEntry) (freed : List ℕ)
      → times h (destroy_pools pools freed) ≡ times h freed + number (gives_pool h) pools
  unfolding destroy_pools pool_destroy
  destroy_pools-gives [] freed = omega arith
  destroy_pools-gives (p ∷ ps) freed =
      let rest = destroy_pools-gives ps (pool_destroy p freed) in ground (arith, rest)

-- The destruction of the arrays joins every stream that is margo's once, gives every pool that is margo's
-- and is not of the primary stream back once, and nothing else, whatever Argobots knows of the streams.
pub destroy_gives_back :
    (A : Argobots) (abt : Abt) (h : ℕ)
    → (times h (abt_destroy A abt).freed ≡ times h abt.freed + number (gives_pool h) abt.pools)
      × (times h (abt_destroy A abt).joined
          ≡ times h abt.joined + number (gives_xstream h) abt.xstreams)
unfolding abt_destroy
destroy_gives_back A abt h =
    let streams = destroy_xstreams-gives A h abt.xstreams abt.pools abt.joined in
    let d = destroy_xstreams A abt.xstreams abt.pools abt.joined in
    (omega (arith, destroy_pools-gives A h d.0 abt.freed, streams.0), streams.1)
