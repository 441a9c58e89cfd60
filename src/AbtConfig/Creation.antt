-- ===== src/AbtConfig/Creation.antt =====
-- src/margo-abt-config.c: a stream that is counted in, and one that is refused half-way.
use mochi_margo.Base.{
  ℕ, ◌+◌, ◌≤◌, ◌≡◌, ◌≢◌, ◌⊎◌, refl, ap, ◌∙◌, sym, subst, Bool, true, false, Bool-cases, ◌==◌, null,
  Option, none, some, List, [], ◌∷◌, arith, inl, inr, Option-cases,
}
use mochi_margo.Registry.Defs.{modify_at}
use mochi_margo.Registry.Totals.{find_first-none}
use mochi_margo.AbtConfig.Entries.{PoolEntry, XstreamEntry, find_pool_by_handle}
use mochi_margo.AbtConfig.Xstreams.{
  Argobots, Made, one_more, one_less, count, count_all, destroyed, pools_of, xstream_destroy,
  counted,
}
use mochi_margo.AbtConfig.Counts.{
  has_handle, held, times, reached, reached-count, reached-modify, found-real, Fits, held-count_up,
  Unique, held-none, held-count_down, count-Unique,
}

-- The pools of a scheduler, up to the first that is not given.
abbrev pub firsts : List (Option ℕ) → List ℕ
firsts [] = []
firsts (none ∷ hs) = []
firsts (some h ∷ hs) = h ∷ firsts hs

abbrev pub given : Option (List (Option ℕ)) → List ℕ
given none = []
given (some hs) = firsts hs

times-reached :
    (h : ℕ) (pools : List PoolEntry) (hs : List (Option ℕ))
    → times h (reached pools hs) ≤ times h (firsts hs)
unfolding reached
times-reached h pools [] = omega arith
times-reached h pools (none ∷ hs) = omega arith
times-reached h pools (some g ∷ hs) = elim (Option-cases (find_pool_by_handle pools g)) [
  | inl n ↦ rw n (omega arith)
  | inr (i, f) ↦ rw f (omega (arith, times-reached h pools hs))
]

-- A loop that ends well gets to every pool, none of them null.
whole_loop :
    (change : PoolEntry → PoolEntry)
    → ((p : PoolEntry) → (change p).pool ≡ p.pool)
    → (pools : List PoolEntry) (hs : List (Option ℕ)) → (count change pools hs).1 ≡ true
    → (reached pools hs ≡ firsts hs) × (times null (firsts hs) ≡ 0)
unfolding count reached
whole_loop change keeps pools [] e = (refl, refl)
whole_loop change keeps pools (none ∷ hs) e = absurd (ground (arith, e))
whole_loop change keeps pools (some g ∷ hs) e = elim (Option-cases (find_pool_by_handle pools g)) [
  | inl n ↦ absurd (ground (arith, e, n))
  | inr (i, f) ↦
      let rest = whole_loop change keeps (modify_at i change pools) hs (ground (arith, e, f)) in
      let real : (g == null) ≡ false = ground (arith, found-real pools g i f) in
      (
        rw f (ap (λ l. g ∷ l) (sym (reached-modify change keeps pools i hs) ∙ rest.0)),
        rw real (omega (arith, rest.1)),
      )
]

-- A loop gets to every pool that some entry holds a stream for.
pub reached_all :
    (pools : List PoolEntry) (hs : List (Option ℕ))
    → ((h : ℕ) → times h (firsts hs) ≤ held h pools)
    → held null pools ≡ 0
    → reached pools hs ≡ firsts hs
unfolding reached find_pool_by_handle
reached_all pools [] enough z = refl
reached_all pools (none ∷ hs) enough z = refl
reached_all pools (some g ∷ hs) enough z =
    let some_held : 1 ≤ held g pools = ground (arith, enough g) in
    let real : (g == null) ≡ false = ground (arith, some_held, z) in
    let rest = reached_all pools hs (λ k. omega (arith, enough k)) z in
    elim (Option-cases (find_pool_by_handle pools g)) [
      | inl n ↦ absurd (
          omega (
            arith,
            some_held,
            held-none g pools (find_first-none (has_handle g) pools (ground (arith, n, real))),
          ))
      | inr (i, f) ↦ rw f (ap (λ l. g ∷ l) rest)
    ]

module _ (A : Argobots) (x : XstreamEntry) (pools : List PoolEntry) (joined : List ℕ) where
  -- The numbers after a stream is destroyed.
  pub destroy-pools :
      (hs : Option (List (Option ℕ)))
      → x.xstream ≢ null
      → pools_of A (A.main_sched x.xstream) ≡ hs
      → (xstream_destroy A x pools joined).0 ≡ (count_all one_less pools hs).0
  unfolding xstream_destroy
  destroy-pools hs real same =
      let there : (x.xstream == null) ≡ false = ground (arith, real) in rw (there, same) refl

  pub destroy-null : (x.xstream == null) ≡ true → (xstream_destroy A x pools joined).0 ≡ pools
  unfolding xstream_destroy
  destroy-null y = rw y refl

module _ (A : Argobots) (x : XstreamEntry) (primary : Bool) (pools : List PoolEntry)
    (joined : List ℕ) where
  abbrev up : Option (List (Option ℕ)) → List PoolEntry × Bool
  up hs = count_all (one_more primary) pools hs

  pub counted-in :
      (hs : Option (List (Option ℕ)))
      → (up hs).1 ≡ true
      → counted A x primary pools joined hs
        ≡ record { entry = some x; pools = (up hs).0; joined = joined }
  unfolding counted
  counted-in hs ok = rw ok refl

  pub counted-refused :
      (hs : Option (List (Option ℕ)))
      → (up hs).1 ≡ false
      → counted A x primary pools joined hs ≡ destroyed (xstream_destroy A x (up hs).0 joined)
  unfolding counted
  counted-refused hs bad = rw bad refl

  -- How the counting ends: the stream is counted in, or every number is as it was.
  abbrev pub Ends : Option (List (Option ℕ)) → Made → Type 0
  Ends hs m =
      ((m.entry ≡ none) × ((h : ℕ) → held h m.pools ≡ held h pools))
      ⊎ ((m.entry ≡ some x)
          × ((h : ℕ) → held h m.pools ≡ held h pools + times h (given hs))
          × (times null (given hs) ≡ 0))

  -- The counting of a new stream into the pools of its scheduler has two ends: the entry of the stream,
  -- with the number of every pool raised by how often the scheduler names it, or no entry, with every
  -- number as it was, also when the loop stops half-way. The stream is not null and its scheduler is
  -- the one that it was made with, no two pools have one handle, and no number wraps around.
  pub counted-Ends :
      (hs : Option (List (Option ℕ)))
      → x.xstream ≢ null
      → pools_of A (A.main_sched x.xstream) ≡ hs
      → Unique pools
      → Fits pools (given hs)
      → Ends hs (counted A x primary pools joined hs)
  counted-Ends none real same u fits =
      let refused = counted-refused none refl in
      let back = destroy-pools A x pools joined none real same in
      inl (ap (λ m. m.entry) refused, λ h. ap (λ m. held h m.pools) refused ∙ ap (held h) back)
  counted-Ends (some hs) real same u fits =
      let enough : Fits pools (reached pools hs) =
        λ h. omega (arith, fits h, times-reached h pools hs) in
      elim (Bool-cases (count (one_more primary) pools hs).1) [
        | inl ok ↦
            let in_all = counted-in (some hs) ok in
            let whole = whole_loop (one_more primary) (λ p. refl) pools hs ok in
            inr (
              ap (λ m. m.entry) in_all,
              λ h. omega (
                arith,
                ap (λ m. held h m.pools) in_all,
                held-count_up primary pools hs enough h,
                ap (times h) whole.0,
              ),
              whole.1,
            )
        | inr bad ↦
            let refused = counted-refused (some hs) bad in
            let back = destroy-pools A x (up (some hs)).0 joined (some hs) real same in
            let more : (h : ℕ)
                → held h (up (some hs)).0 ≡ held h pools + times h (reached pools hs) =
              λ h. held-count_up primary pools hs enough h in
            let again = reached-count (one_more primary) (λ p. refl) pools hs hs in
            let less : (h : ℕ) → held h (count one_less (up (some hs)).0 hs).0 ≡ held h pools = λ h.
              omega (
                arith,
                more h,
                ap (times h) again,
                held-count_down (up (some hs)).0 hs
                    (count-Unique (one_more primary) (λ p. refl) pools hs u)
                    (λ k. omega (arith, more k, ap (times k) again))
                    (λ k. omega (arith, more k, enough k)) h,
              ) in
            inl (
              ap (λ m. m.entry) refused,
              λ h. ap (λ m. held h m.pools) refused ∙ ap (held h) back ∙ less h,
            )
      ]

  pub counted-Unique :
      (hs : Option (List (Option ℕ)))
      → x.xstream ≢ null
      → pools_of A (A.main_sched x.xstream) ≡ hs
      → Unique pools
      → Unique (counted A x primary pools joined hs).pools
  counted-Unique none real same u =
      let refused = counted-refused none refl in
      let back = destroy-pools A x pools joined none real same in
      subst Unique (sym (ap (λ m. m.pools) refused ∙ back)) u
  counted-Unique (some hs) real same u =
      let after = count-Unique (one_more primary) (λ p. refl) pools hs u in
      elim (Bool-cases (count (one_more primary) pools hs).1) [
        | inl ok ↦ subst Unique (sym (ap (λ m. m.pools) (counted-in (some hs) ok))) after
        | inr bad ↦
            let back = destroy-pools A x (up (some hs)).0 joined (some hs) real same in
            subst Unique (sym (ap (λ m. m.pools) (counted-refused (some hs) bad) ∙ back))
              (count-Unique one_less (λ p. refl) (up (some hs)).0 hs after)
      ]
