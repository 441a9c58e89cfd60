-- ===== src/EfirstPool/Heap/Order.antt =====
-- src/margo-efirst-pool.c: the order of the heap.
use mochi_margo.Base.{ℕ, zero, suc, ◌/◌, ◌≤◌, ◌<◌, ◌≡◌, ◌≢◌, arith}

module _ (key : ℕ → ℕ) where
  -- No entry has a key below that of its parent.
  abbrev pub IsHeap : (ℕ → ℕ) → ℕ → Type 0
  IsHeap e n = (c : ℕ) → 2 ≤ c → c ≤ n → key (e (c / 2)) ≤ key (e c)

  -- With a hole at i: the edges away from the hole are in order, and so are the two edges that
  -- meet there, taken as one.
  pub record IsHeapBut (i : ℕ) (e : ℕ → ℕ) (n : ℕ) : Type 0 where
    pub inside : 1 ≤ i
    pub edges : (c : ℕ) → 2 ≤ c → c ≤ n → c ≢ i → c / 2 ≢ i → key (e (c / 2)) ≤ key (e c)
    pub bridged : (c : ℕ) → c ≤ n → c / 2 ≡ i → 2 ≤ i → key (e (i / 2)) ≤ key (e c)

  root_least_below :
      (k : ℕ) (e : ℕ → ℕ) (n i : ℕ) → IsHeap e n → i < k → 1 ≤ i → i ≤ n → key (e 1) ≤ key (e i)
  root_least_below zero e n i h f p q = absurd (omega arith)
  root_least_below (suc k) e n zero h f p q = absurd (omega arith)
  root_least_below (suc k) e n (suc zero) h f p q = omega arith
  root_least_below (suc k) e n (suc (suc i)) h f p q = omega (
    arith,
    h (suc (suc i)) (omega arith) q,
    root_least_below k e n (suc (suc i) / 2) h (omega arith) (omega arith) (omega arith),
  )

  -- The entry at index 1 has the least key.
  pub root_least : (e : ℕ → ℕ) (n i : ℕ) → IsHeap e n → 1 ≤ i → i ≤ n → key (e 1) ≤ key (e i)
  root_least e n i h p q = root_least_below (suc i) e n i h (omega arith) p q

-- The order depends only on the keys of the entries.
pub IsHeap-ext :
    (key key' e : ℕ → ℕ) (n : ℕ)
    → ((i : ℕ) → 1 ≤ i → i ≤ n → key' (e i) ≡ key (e i))
    → IsHeap key e n
    → IsHeap key' e n
IsHeap-ext key key' e n same h c p q =
    omega (arith, h c p q, same c (omega arith) q, same (c / 2) (omega arith) (omega arith))
