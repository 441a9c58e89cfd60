-- ===== src/PrioPool/Remove.antt =====
-- src/margo-prio-pool.c: `pool_remove` on a list that is circular.
use mochi_margo.Base.Nodes.{last_of-ne}
use mochi_margo.Base.{
  ℕ, ◌+◌, ◌-◌, ◌%◌, ◌^◌, ◌<◌, ◌≡◌, ◌≢◌, ap, ◌∙◌, sym, List, [], ◌∷◌, arith, null,
}
use mochi_margo.PrioPool.Defs.{Units, Queue, Pool, queue_pop, pool_pop, pool_remove}
use mochi_margo.PrioPool.Ring.{Seg-last}
use mochi_margo.PrioPool.QueueLaws.{IsQueue}
use mochi_margo.PrioPool.Laws.{IsPool}
use mochi_margo.PrioPool.PopLaws.{high_first}

-- Neither link of the head is null, since the list is circular.
head_links :
    (m : Units) (q : Queue) (h : ℕ) (us : List ℕ)
    → IsQueue m q (h ∷ us)
    → (m.prev h ≢ null) × (m.next h ≢ null)
head_links m q h [] v = (ground (arith, v.linked, v.nonnull), ground (arith, v.linked, v.nonnull))
head_links m q h (u ∷ us) v =
    let l = last_of-ne null u us v.nonnull.1 in
    let back = Seg-last m.next m.prev h (u ∷ us) h v.linked.2 in
    ((λ e. l (sym back ∙ e)), (λ e. v.nonnull.1.0 (sym v.linked.2.0 ∙ e)))

remove_fields :
    (s : Pool) (p : ℕ)
    → s.units.prev p ≢ null
    → s.units.next p ≢ null
    → ((pool_remove s p).high ≡ s.high)
      × ((pool_remove s p).units.in_pool ≡ s.units.in_pool)
      × ((pool_remove s p).cnt ≡ s.cnt)
      × ((pool_remove s p).num ≡ (s.num + 2 ^ 32 - 1) % 2 ^ 32)
unfolding pool_remove
remove_fields s p a b = ground (arith, a, b)

pop_head : (m : Units) (q : Queue) → q.head ≢ null → (queue_pop m q).0 ≡ q.head
unfolding queue_pop
pop_head m q n = ground (arith, n)

-- The head p of the high-priority list of a pool that holds more than p: `pool_remove` takes one
-- off the number of units, but leaves the list's head and the unit's mark as they are, and the
-- pop after it gives p, which was removed, again, where the count of pops is no multiple of 256.
pub removed_unit_is_popped :
    (s : Pool) (p : ℕ) (us vs : List ℕ)
    → IsPool s (p ∷ us) vs
    → 1 < s.num
    → s.cnt % 256 ≢ 0
    → ((pool_remove s p).num ≡ s.num - 1)
      × ((pool_remove s p).high ≡ s.high)
      × ((pool_remove s p).units.in_pool ≡ s.units.in_pool)
      × ((pool_pop (pool_remove s p)).0 ≡ p)
removed_unit_is_popped s p us vs v more odd =
    let links = head_links s.units s.high p us v.high in
    let f = remove_fields s p links.0 links.1 in
    let n : (pool_remove s p).num ≡ s.num - 1 = f.3 ∙ omega (arith, v.small, more) in
    let head = ap (λ q. q.head) f.0 ∙ v.high.linked.0 in
    let here = v.high.nonnull.0 in
    (
      n,
      f.0,
      f.1,
      ap (λ r. r.0)
          (high_first (pool_remove s p) p here (omega (arith, n, more))
            (pop_head (pool_remove s p).units (pool_remove s p).high (λ e. here (sym head ∙ e))
              ∙ head)
            (ground (arith, f.2, odd))),
    )
