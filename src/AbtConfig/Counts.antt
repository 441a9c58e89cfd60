-- ===== src/AbtConfig/Counts.antt =====
-- src/margo-abt-config.c: what counting a stream in and out does to the numbers in the entries.
use mathlib.Core.Option.{some-injective}
use mochi_margo.Base.{
  ℕ, subst, zero, suc, ◌+◌, ◌^◌, ◌≤◌, ◌<◌, ◌≡◌, ◌≢◌, refl, ap, ◌∙◌, Bool, true, false, Bool-cases,
  ◌==◌, if◌then◌else◌, null, Option, none, some, List, [], ◌∷◌, arith, inl, inr, Option-cases,
  get_elem?,
}
use mochi_margo.Registry.Defs.{modify_at}
use mochi_margo.Registry.Totals.{
  total, number, le-total, find_first-some, total-modify_at, find_first-modify_at,
}
use mochi_margo.AbtConfig.Entries.{PoolEntry, find_pool_by_handle}
use mochi_margo.AbtConfig.Xstreams.{one_more, one_less, count}

-- Whether an entry has a handle, and the number of streams that the entries with it hold.
abbrev pub has_handle : ℕ → PoolEntry → Bool
has_handle h p = p.pool == h

abbrev pub num_at : ℕ → PoolEntry → ℕ
num_at h p = if p.pool == h then p.num_xstreams else 0

abbrev pub held : ℕ → List PoolEntry → ℕ
held h pools = total (num_at h) pools

-- How often a handle stands in a list.
abbrev pub one_if : Bool → ℕ
one_if b = if b then 1 else 0

abbrev pub times : ℕ → List ℕ → ℕ
times h [] = 0
times h (g ∷ gs) = one_if (g == h) + times h gs

-- The handles that a loop gets to: those before the first that is not given or not registered.
abbrev pub if_found : Option ℕ → List ℕ → List ℕ
if_found none hs = []
if_found (some i) hs = hs

unfoldable pub reached : List PoolEntry → List (Option ℕ) → List ℕ
reached pools [] = []
reached pools (none ∷ hs) = []
reached pools (some h ∷ hs) =
    let rest = reached pools hs in if_found (find_pool_by_handle pools h) (h ∷ rest)

-- A change of an entry that keeps its handle.
abbrev pub KeepsHandle : (PoolEntry → PoolEntry) → Type 0
KeepsHandle change = (p : PoolEntry) → (change p).pool ≡ p.pool

module _ (change : PoolEntry → PoolEntry) (keeps : KeepsHandle change) where
  pub find-modify :
      (pools : List PoolEntry) (i h : ℕ)
      → find_pool_by_handle (modify_at i change pools) h ≡ find_pool_by_handle pools h
  unfolding find_pool_by_handle
  find-modify pools i h =
      rw (find_first-modify_at (has_handle h) change (λ p. ap (λ k. k == h) (keeps p)) pools i) refl

  pub reached-modify :
      (pools : List PoolEntry) (i : ℕ) (hs : List (Option ℕ))
      → reached (modify_at i change pools) hs ≡ reached pools hs
  unfolding reached
  reached-modify pools i [] = refl
  reached-modify pools i (none ∷ hs) = refl
  reached-modify pools i (some h ∷ hs) = rw (find-modify pools i h, reached-modify pools i hs) refl

  pub reached-count :
      (pools : List PoolEntry) (gs hs : List (Option ℕ))
      → reached (count change pools gs).0 hs ≡ reached pools hs
  unfolding count
  reached-count pools [] hs = refl
  reached-count pools (none ∷ gs) hs = refl
  reached-count pools (some g ∷ gs) hs = elim (Option-cases (find_pool_by_handle pools g)) [
    | inl n ↦ rw n refl
    | inr (i, f) ↦ rw f (reached-count (modify_at i change pools) gs hs ∙ reached-modify pools i hs)
  ]

-- The entry that a handle is found at.
pub found :
    (pools : List PoolEntry) (h i : ℕ)
    → find_pool_by_handle pools h ≡ some i
    → (p : PoolEntry) × (get_elem? pools i ≡ some p) × (p.pool ≡ h)
unfolding find_pool_by_handle
found pools h i e =
    let (p, at, same) = find_first-some (has_handle h) pools i (ground (arith, e)) in
    (p, at, ground (arith, same))

pub found-real :
    (pools : List PoolEntry) (h i : ℕ) → find_pool_by_handle pools h ≡ some i → h ≢ null
unfolding find_pool_by_handle
found-real pools h i e z = ground (arith, e, z)

-- The totals are below 2^32, with what is added.
abbrev pub Fits : List PoolEntry → List ℕ → Type 0
Fits pools hs = (h : ℕ) → held h pools + times h hs < 2 ^ 32

step_up :
    (primary : Bool) (pools : List PoolEntry) (g i h : ℕ)
    → find_pool_by_handle pools g ≡ some i
    → held h pools + one_if (g == h) < 2 ^ 32
    → held h (modify_at i (one_more primary) pools) ≡ held h pools + one_if (g == h)
step_up primary pools g i h e fits =
    let (p, at, same) = found pools g i e in
    let all = total-modify_at (num_at h) (one_more primary) pools i p at in
    let part = le-total (num_at h) pools i p at in
    elim (Bool-cases (g == h)) [
      | inl y ↦
          let here : (p.pool == h) ≡ true = ground (arith, y, same) in
          ground (arith, all, part, here, y, fits)
      | inr n ↦
          let there : (p.pool == h) ≡ false = ground (arith, n, same) in
          ground (arith, all, part, there, n, fits)
    ]

-- Counting in adds one for every handle that the loop gets to.
pub held-count_up :
    (primary : Bool) (pools : List PoolEntry) (hs : List (Option ℕ))
    → Fits pools (reached pools hs)
    → (h : ℕ)
    → held h (count (one_more primary) pools hs).0 ≡ held h pools + times h (reached pools hs)
unfolding count reached
held-count_up primary pools [] fits h = omega arith
held-count_up primary pools (none ∷ hs) fits h = omega arith
held-count_up primary pools (some g ∷ hs) fits h =
    elim (Option-cases (find_pool_by_handle pools g)) [
      | inl n ↦ rw n (omega arith)
      | inr (i, f) ↦
          let same = reached-modify (one_more primary) (λ p. refl) pools i hs in
          let fit : (k : ℕ)
              → held k pools + (one_if (g == k) + times k (reached pools hs)) < 2 ^ 32 =
            λ k.
              subst (λ o. held k pools + times k (if_found o (g ∷ reached pools hs)) < 2 ^ 32) f
                (fits k) in
          let up : (k : ℕ)
              → held k (modify_at i (one_more primary) pools) ≡ held k pools + one_if (g == k) =
            λ k. step_up primary pools g i k f (omega (arith, fit k)) in
          let rest =
            held-count_up primary (modify_at i (one_more primary) pools) hs
              (λ k. rw same (omega (arith, fit k, up k))) h in
          rw f (omega (arith, rest, up h, ap (times h) same))
    ]

-- No two entries have the same handle, unless it is null.
abbrev pub Unique : List PoolEntry → Type 0
Unique pools = (h : ℕ) → h ≢ null → number (has_handle h) pools ≤ 1

pub held-none :
    (h : ℕ) (pools : List PoolEntry) → number (has_handle h) pools ≡ 0 → held h pools ≡ 0
held-none h [] n = refl
held-none h (p ∷ pools) n = ground (arith, n, held-none h pools)

pub held-alone :
    (h : ℕ) (pools : List PoolEntry) (i : ℕ) (p : PoolEntry)
    → number (has_handle h) pools ≤ 1
    → get_elem? pools i ≡ some p
    → p.pool ≡ h
    → held h pools ≡ p.num_xstreams
held-alone h [] i p u at e = absurd (ground (arith, at))
held-alone h (q ∷ pools) zero p u at e =
    let same : q ≡ p = some-injective _ _ at in
    let here : (q.pool == h) ≡ true = ap (λ x. x.pool == h) same ∙ ground (arith, e) in
    let count = ap (λ x. x.num_xstreams) same in ground (arith, u, here, count, held-none h pools)
held-alone h (q ∷ pools) (suc i) p u at e =
    let behind = le-total (λ x. if x.pool == h then 1 else 0) pools i p at in
    let here : (p.pool == h) ≡ true = ground (arith, e) in
    let one : 1 ≤ number (has_handle h) pools = ground (arith, behind, here) in
    let there : (q.pool == h) ≡ false = ground (arith, u, one) in
    ground (arith, u, there, held-alone h pools i p)

pub modify-Unique :
    (change : PoolEntry → PoolEntry)
    → KeepsHandle change
    → (pools : List PoolEntry) (i : ℕ) (p : PoolEntry) → get_elem? pools i ≡ some p
    → Unique pools
    → Unique (modify_at i change pools)
modify-Unique change keeps pools i p at u h real =
    let all = total-modify_at (λ x. if x.pool == h then 1 else 0) change pools i p at in
    let same = ap (λ k. one_if (k == h)) (keeps p) in omega (arith, all, same, u h real)

step_down :
    (pools : List PoolEntry) (g i h : ℕ)
    → Unique pools
    → find_pool_by_handle pools g ≡ some i
    → one_if (g == h) ≤ held h pools
    → held h pools < 2 ^ 32
    → held h (modify_at i one_less pools) + one_if (g == h) ≡ held h pools
step_down pools g i h u e some_held fits =
    let (p, at, same) = found pools g i e in
    let all = total-modify_at (num_at h) one_less pools i p at in
    elim (Bool-cases (g == h)) [
      | inl y ↦
          let there : p.pool ≡ h = ground (arith, y, same) in
          let here : (p.pool == h) ≡ true = ground (arith, there) in
          let real : h ≢ null = λ z. found-real pools g i e (ground (arith, y, z)) in
          let whole = held-alone h pools i p (u h real) at there in
          ground (arith, all, whole, here, y, some_held, fits)
      | inr n ↦
          let there : (p.pool == h) ≡ false = ground (arith, n, same) in
          ground (arith, all, there, n)
    ]

-- Counting out takes one for every handle that the loop gets to.
pub held-count_down :
    (pools : List PoolEntry) (hs : List (Option ℕ))
    → Unique pools
    → ((h : ℕ) → times h (reached pools hs) ≤ held h pools)
    → ((h : ℕ) → held h pools < 2 ^ 32)
    → (h : ℕ) → held h (count one_less pools hs).0 + times h (reached pools hs) ≡ held h pools
unfolding count reached
held-count_down pools [] u enough fits h = omega arith
held-count_down pools (none ∷ hs) u enough fits h = omega arith
held-count_down pools (some g ∷ hs) u enough fits h =
    elim (Option-cases (find_pool_by_handle pools g)) [
      | inl n ↦ rw n (omega arith)
      | inr (i, f) ↦
          let (p, at, _) = found pools g i f in
          let same = reached-modify one_less (λ p. refl) pools i hs in
          let held_all : (k : ℕ) → one_if (g == k) + times k (reached pools hs) ≤ held k pools =
            λ k.
              subst (λ o. times k (if_found o (g ∷ reached pools hs)) ≤ held k pools) f
                (enough k) in
          let down : (k : ℕ)
              → held k (modify_at i one_less pools) + one_if (g == k) ≡ held k pools =
            λ k. step_down pools g i k u f (omega (arith, held_all k)) (fits k) in
          let rest =
            held-count_down (modify_at i one_less pools) hs
              (modify-Unique one_less (λ p. refl) pools i p at u)
              (λ k. rw same (omega (arith, held_all k, down k)))
              (λ k. omega (arith, fits k, down k)) h in
          rw f (omega (arith, rest, down h, ap (times h) same))
    ]

pub count-Unique :
    (change : PoolEntry → PoolEntry)
    → KeepsHandle change
    → (pools : List PoolEntry) (hs : List (Option ℕ)) → Unique pools
    → Unique (count change pools hs).0
unfolding count
count-Unique change keeps pools [] u = u
count-Unique change keeps pools (none ∷ hs) u = u
count-Unique change keeps pools (some g ∷ hs) u =
    elim (Option-cases (find_pool_by_handle pools g)) [
      | inl n ↦ rw n u
      | inr (i, f) ↦
          let (p, at, _) = found pools g i f in
          rw f (
            count-Unique change keeps (modify_at i change pools) hs
              (modify-Unique change keeps pools i p at u))
    ]
