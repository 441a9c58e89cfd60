-- ===== src/EfirstPool/Heap/Count.antt =====
-- src/margo-efirst-pool.c: how often a unit stands among the entries 1 to n.
use mochi_margo.Base.{
  ℕ, zero, suc, ◌+◌, ◌≤◌, ◌<◌, ◌≡◌, ◌≢◌, inl, inr, Bool-cases, subst, sym, arith, ◌==◌,
  if◌then◌else◌, update, refl,
}

abbrev pub one_if : ℕ → ℕ → ℕ
one_if a b = if a == b then 1 else 0

pub count : ℕ → (ℕ → ℕ) → ℕ → ℕ
count a e zero = 0
count a e (suc n) = count a e n + one_if a (e (suc n))

pub count-zero : (a : ℕ) (e : ℕ → ℕ) → count a e 0 ≡ 0
unfolding count
count-zero a e = refl

pub count-suc : (a : ℕ) (e : ℕ → ℕ) (n : ℕ) → count a e (suc n) ≡ count a e n + one_if a (e (suc n))
unfolding count
count-suc a e n = refl

pub count-update_above :
    (a : ℕ) (e : ℕ → ℕ) (n i v : ℕ) → n < i → count a (update e i v) n ≡ count a e n
unfolding count
count-update_above a e zero i v h = refl
count-update_above a e (suc n) i v h = ground (arith, count-update_above a e n i v)

-- To write an entry trades the old one for the new one.
pub count-update :
    (a : ℕ) (e : ℕ → ℕ) (n i v : ℕ)
    → 1 ≤ i
    → i ≤ n
    → count a (update e i v) n + one_if a (e i) ≡ count a e n + one_if a v
unfolding count
count-update a e zero i v p q = absurd (omega arith)
count-update a e (suc n) i v p q =
    ground (arith, count-update a e n i v, count-update_above a e n i v)

-- A unit that is counted stands at some index.
pub index_of_count :
    (a : ℕ) (e : ℕ → ℕ) (n : ℕ) → 0 < count a e n → (i : ℕ) × (1 ≤ i) × (i ≤ n) × (e i ≡ a)
unfolding count
index_of_count a e zero h = absurd (omega arith)
index_of_count a e (suc n) h = elim (Bool-cases (a == e (suc n))) [
  | inl here ↦ (suc n, omega arith, omega arith, ground arith)
  | inr other ↦ let (i, p, q, r) = index_of_count a e n (ground arith) in (i, p, omega arith, r)
]

-- A unit that is not counted stands at no index.
pub ne_of_count-zero : (a : ℕ) (e : ℕ → ℕ) (n i : ℕ) → count a e n ≡ 0 → 1 ≤ i → i ≤ n → e i ≢ a
unfolding count
ne_of_count-zero a e zero i h p q = absurd (omega arith)
ne_of_count-zero a e (suc n) i h p q = elim (Bool-cases (i == suc n)) [
  | inl last ↦ ground arith
  | inr below ↦ ne_of_count-zero a e n i (ground arith) p (ground arith)
]

-- An entry written behind the others.
pub count-snoc :
    (a : ℕ) (e : ℕ → ℕ) (n i v : ℕ)
    → i ≡ suc n
    → count a (update e i v) i ≡ count a e n + one_if a v
count-snoc a e n i v h =
    subst (λ j. count a (update e j v) j ≡ count a e n + one_if a v) (sym h) last
  where
    last : count a (update e (suc n) v) (suc n) ≡ count a e n + one_if a v
    last = ground (
      arith,
      count-suc a (update e (suc n) v) n,
      count-update_above a e n (suc n) v (omega arith),
    )

-- The last entry taken off.
pub count-last :
    (a : ℕ) (e : ℕ → ℕ) (n i : ℕ) → i ≡ suc n → count a e i ≡ count a e n + one_if a (e i)
count-last a e n i h =
    subst (λ j. count a e j ≡ count a e n + one_if a (e j)) (sym h) (count-suc a e n)
