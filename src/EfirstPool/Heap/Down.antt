-- ===== src/EfirstPool/Heap/Down.antt =====
-- src/margo-efirst-pool.c: the loop of `queue_pop_prio`, which moves entries up until the last one
-- fits in.
use mochi_margo.Base.{
  ℕ, zero, suc, ◌+◌, ◌*◌, ◌/◌, ◌≤◌, ◌<◌, ◌≡◌, ◌⊎◌, refl, ◌∙◌, inl, inr, ◌&&◌, not, Option, none,
  some, arith, ltb, leb, ◌==◌, if◌then◌else◌, update, Bool-cases,
}
use mochi_margo.EfirstPool.Heap.Order.{IsHeap, IsHeapBut}
use mochi_margo.EfirstPool.Heap.Count.{count, count-update}
use mochi_margo.EfirstPool.Heap.Up.{IsSifted}

module _ (key : ℕ → ℕ) where
  -- The child of `index` with the lesser key, the left one if they are equal or there is no other.
  unfoldable pub lesser_child : (ℕ → ℕ) → (size index : ℕ) → ℕ
  lesser_child e size index =
      let child = index * 2 in
      if not (child == size) && ltb (key (e (child + 1))) (key (e child)) then child + 1 else child

  -- `while (index * 2 <= size)`, and the write behind it.
  unfoldable pub down_loop : ℕ → (ℕ → ℕ) → (size last_entry index : ℕ) → Option (ℕ → ℕ)
  down_loop zero e size last_entry index = none
  down_loop (suc fuel) e size last_entry index =
      let child = lesser_child e size index in
      let rest = down_loop fuel (update e index (e child)) size last_entry child in
      if leb (index * 2) size && ltb (key (e child)) (key last_entry)
      then rest
      else some (update e index last_entry)

  -- Of the children of i, m has the least key.
  record IsLesser (e : ℕ → ℕ) (n i m : ℕ) : Type 0 where
    inside : m ≤ n
    child : m / 2 ≡ i
    above : i < m
    least : (c : ℕ) → 2 ≤ c → c ≤ n → c / 2 ≡ i → key (e m) ≤ key (e c)

  either_child : (c i : ℕ) → c / 2 ≡ i → (c ≡ i * 2) ⊎ (c ≡ i * 2 + 1)
  either_child c i s = grind arith

  lesser_child-least :
      (e : ℕ → ℕ) (n i c : ℕ)
      → i * 2 ≤ n
      → c ≤ n
      → c / 2 ≡ i
      → key (e (lesser_child e n i)) ≤ key (e c)
  unfolding lesser_child
  lesser_child-least e n i c q r s = elim (either_child c i s) [
    | inl left ↦ rw left (ground arith)
    | inr right ↦ rw right (ground arith)
  ]

  lesser_child-IsLesser :
      (e : ℕ → ℕ) (n i : ℕ) → 1 ≤ i → i * 2 ≤ n → IsLesser e n i (lesser_child e n i)
  unfolding lesser_child
  lesser_child-IsLesser e n i p q = record {
    inside = ground arith;
    child = ground arith;
    above = ground arith;
    least = λ c two r s. lesser_child-least e n i c q r s;
  }

  -- The entry above the hole is in order with the last entry.
  abbrev IsLower : ℕ → (ℕ → ℕ) → ℕ → Type 0
  IsLower i e x = 2 ≤ i → key (e (i / 2)) ≤ key x

  sink_edges :
      (e : ℕ → ℕ) (n x i m : ℕ)
      → IsHeapBut key i e n
      → IsLesser e n i m
      → key (e m) ≤ key x
      → IsHeapBut key m (update e i (e m)) n × IsLower m (update e i (e m)) x
  sink_edges e n x i m v l below = (
    record {
      inside = omega (arith, l.above);
      edges = λ c p q r s.
          ground (arith, v.edges c, v.bridged m, l.least c, l.inside, l.child, l.above);
      bridged = λ c q r s. ground (arith, v.edges c, l.inside, l.child, l.above);
    },
    λ two. ground (arith, l.child),
  )

  settle :
      (e : ℕ → ℕ) (n x i : ℕ)
      → IsHeapBut key i e n
      → IsLower i e x
      → ((c : ℕ) → 2 ≤ c → c ≤ n → c / 2 ≡ i → key x ≤ key (e c))
      → IsHeap key (update e i x) n
  settle e n x i v low children c p q = ground (arith, v.edges c, low, children c)

  swap_count :
      (e : ℕ → ℕ) (n x i m a : ℕ)
      → 1 ≤ i
      → i < m
      → m ≤ n
      → count a (update (update e i (e m)) m x) n ≡ count a (update e i x) n
  swap_count e n x i m a one above inside = ground (
    arith,
    count-update a e n i x,
    count-update a e n i (e m),
    count-update a (update e i (e m)) n m x,
  )

  pub down_loop-IsSifted :
      (fuel : ℕ) (e : ℕ → ℕ) (n x i : ℕ)
      → i ≤ n + 1
      → n + 1 < i + fuel
      → IsHeapBut key i e n
      → IsLower i e x
      → (r : ℕ → ℕ) × (down_loop fuel e n x i ≡ some r) × IsSifted key (update e i x) n r
  unfolding down_loop
  down_loop-IsSifted zero e n x i h f v low = absurd (omega arith)
  down_loop-IsSifted (suc fuel) e n x i h f v low =
      let m = lesser_child e n i in
      elim (Bool-cases (leb (i * 2) n && ltb (key (e m)) (key x))) [
        | inr stop ↦ rw stop (
          update e i x,
          refl,
          record {
            heap = settle e n x i v low (λ c p q r. ground (arith, lesser_child-least e n i c));
            kept = λ a. refl;
          },
        )
        | inl go ↦
            let two : i * 2 ≤ n = ground arith in
            let below : key (e m) ≤ key x = ground arith in
            let l = lesser_child-IsLesser e n i v.inside two in
            let (v', low') = sink_edges e n x i m v l below in
            let (r, run, s) =
              down_loop-IsSifted fuel (update e i (e m)) n x m (omega (arith, l.inside))
                (omega (arith, l.above)) v' low' in
            rw go (
              r,
              run,
              record {
                heap = s.heap;
                kept = λ a. s.kept a ∙ swap_count e n x i m a v.inside l.above l.inside;
              },
            )
      ]
