-- ===== src/EfirstPool/Heap/Up.antt =====
-- src/margo-efirst-pool.c: the loop of `queue_push_prio`, which moves entries down to make room for
-- a new one.
use mochi_margo.Base.{
  ℕ, zero, suc, ◌/◌, ◌≤◌, ◌<◌, ◌≡◌, refl, ◌∙◌, inl, inr, ◌&&◌, Option, none, some, arith, ltb,
  if◌then◌else◌, update, Bool-cases,
}
use mochi_margo.EfirstPool.Heap.Order.{IsHeap, IsHeapBut}
use mochi_margo.EfirstPool.Heap.Count.{count, count-update}

module _ (key : ℕ → ℕ) where
  -- `while (index > 1 && priority < entries[index / 2]->priority)`, and the write behind it.
  unfoldable pub up_loop : ℕ → (ℕ → ℕ) → ℕ → ℕ → Option (ℕ → ℕ)
  up_loop zero e new_entry index = none
  up_loop (suc fuel) e new_entry index =
      let parent = index / 2 in
      let rest = up_loop fuel (update e index (e parent)) new_entry parent in
      if ltb 1 index && ltb (key new_entry) (key (e parent))
      then rest
      else some (update e index new_entry)

  -- Below the hole no key is below that of the new entry.
  abbrev IsUpper : ℕ → (ℕ → ℕ) → ℕ → ℕ → Type 0
  IsUpper i e n x = (c : ℕ) → c ≤ n → c / 2 ≡ i → key x ≤ key (e c)

  -- The heap that a loop leaves, with the same entries as before.
  pub record IsSifted (e : ℕ → ℕ) (n : ℕ) (r : ℕ → ℕ) : Type 0 where
    pub heap : IsHeap key r n
    pub kept : (a : ℕ) → count a r n ≡ count a e n

  rise_edges :
      (e : ℕ → ℕ) (n x i : ℕ)
      → IsHeapBut key i e n
      → IsUpper i e n x
      → 2 ≤ i
      → i ≤ n
      → key x < key (e (i / 2))
      → IsHeapBut key (i / 2) (update e i (e (i / 2))) n
        × IsUpper (i / 2) (update e i (e (i / 2))) n x
  rise_edges e n x i v u two inside below = (
    record {
      inside = omega arith;
      edges = λ c p q r s. ground (arith, v.edges c, v.bridged c);
      bridged = λ c q r s. ground (arith, v.edges c, v.edges (i / 2));
    },
    λ c q r. ground (arith, v.edges c),
  )

  settle :
      (e : ℕ → ℕ) (n x i : ℕ)
      → IsHeapBut key i e n
      → IsUpper i e n x
      → (2 ≤ i → key (e (i / 2)) ≤ key x)
      → IsHeap key (update e i x) n
  settle e n x i v u above c p q = ground (arith, v.edges c, u c)

  swap_count :
      (e : ℕ → ℕ) (n x i a : ℕ)
      → 2 ≤ i
      → i ≤ n
      → count a (update (update e i (e (i / 2))) (i / 2) x) n ≡ count a (update e i x) n
  swap_count e n x i a two inside = ground (
    arith,
    count-update a e n i x,
    count-update a e n i (e (i / 2)),
    count-update a (update e i (e (i / 2))) n (i / 2) x,
  )

  pub up_loop-IsSifted :
      (fuel : ℕ) (e : ℕ → ℕ) (n x i : ℕ)
      → i ≤ fuel
      → i ≤ n
      → IsHeapBut key i e n
      → IsUpper i e n x
      → (r : ℕ → ℕ) × (up_loop fuel e x i ≡ some r) × IsSifted (update e i x) n r
  unfolding up_loop
  up_loop-IsSifted zero e n x i f inside v u = absurd (omega (arith, v.inside))
  up_loop-IsSifted (suc fuel) e n x i f inside v u =
      elim (Bool-cases (ltb 1 i && ltb (key x) (key (e (i / 2))))) [
        | inr stop ↦ rw stop (
          update e i x,
          refl,
          record { heap = settle e n x i v u (λ two. ground arith); kept = λ a. refl },
        )
        | inl go ↦
            let two : 2 ≤ i = ground arith in
            let below : key x < key (e (i / 2)) = ground arith in
            let (v', u') = rise_edges e n x i v u two inside below in
            let (r, run, s) =
              up_loop-IsSifted fuel (update e i (e (i / 2))) n x (i / 2) (omega arith) (omega arith)
                v' u' in
            rw go (
              r,
              run,
              record { heap = s.heap; kept = λ a. s.kept a ∙ swap_count e n x i a two inside },
            )
      ]
