-- ===== src/EfirstPool/Push.antt =====
-- src/margo-efirst-pool.c: what `pool_push` does to the pool.
use mochi_margo.Base.{
  ℕ, ◌+◌, ◌*◌, ◌%◌, ◌≤◌, ◌<◌, ◌≡◌, ◌≢◌, refl, ap, ◌∙◌, sym, subst, inl, inr, Bool, true, false,
  ◌&&◌, not, some, List, [], ◌∷◌, ◌++◌, arith, ltb, leb, if◌then◌else◌, update, Bool-cases, u64_max,
}
use mochi_margo.EfirstPool.Heap.{one_if}
use mochi_margo.EfirstPool.Queue.{
  WorkUnit, Pool, key, mark_in, queue_push_fifo, queue_push, with_priority, pool_push,
}
use mochi_margo.EfirstPool.PrioLaws.{key-mark_in, push_prio_adds}
use mochi_margo.EfirstPool.Fifo.{next_of, push_fifo_appends}
use mochi_margo.EfirstPool.Laws.{
  IsPool, IsOutside, total, fifo_count-snoc, IsFifo-move, IsPrio-move, with_priority-IsPool,
  with_priority-fields,
}

abbrev bump : Pool → ℕ → Pool
bump s p = record s {
  units = update s.units p (record (s.units p) { cs_count = ((s.units p).cs_count + 1) % 256 });
}

bump-IsPool : (s : Pool) (us : List ℕ) (p : ℕ) → IsPool s us → IsPool (bump s p) us
bump-IsPool s us p v = record {
  prio = IsPrio-move s (bump s p) (λ i q r. ground arith) refl refl refl v.prio;
  fifo = IsFifo-move s (bump s p) us (λ x. ground arith) refl refl refl v.fifo;
}

key-bump : (s : Pool) (p q : ℕ) → key (bump s p).units q ≡ key s.units q
key-bump s p q = ground arith

next-mark_in : (units : ℕ → WorkUnit) (p x : ℕ) → next_of (mark_in units p) x ≡ next_of units x
next-mark_in units p x = ground arith

-- What a push leaves: one unit more, and the priorities as they were handed on.
pub record Pushing (s : Pool) (us : List ℕ) (p : ℕ) (t : Pool) (us' : List ℕ) : Type 0 where
  pub valid : IsPool t us'
  pub added : (a : ℕ) → total a t us' ≡ total a s us + one_if a p
  pub same_keys : (q : ℕ) → key t.units q ≡ key s.units q

push_to_heap :
    (grows : Bool) (s : Pool) (us : List ℕ) (p : ℕ)
    → IsPool s us
    → s.capacity * 2 ≤ u64_max
    → (leb s.capacity s.size && not grows) ≡ false
    → ltb (s.units p).cs_count 32 ≡ true
    → (t : Pool) × (queue_push grows s p ≡ some t) × Pushing s us p t us
unfolding queue_push
push_to_heap grows s us p v bound fits new =
    let (t, run, d) = push_prio_adds grows s p v.prio bound fits in
    let unmoved : (x : ℕ) → next_of t.units x ≡ next_of s.units x =
      λ x. ap (λ u. next_of u x) d.units ∙ next-mark_in s.units p x in
    let pushed : IsPool t us = record {
      prio = d.valid;
      fifo = IsFifo-move s t us unmoved d.same_first d.same_last d.same_fifo v.fifo;
    } in
    (
      bump t p,
      rw (new, run) refl,
      record {
        valid = bump-IsPool t us p pushed;
        added = λ a. omega (arith, d.added a);
        same_keys = λ q. key-bump t p q ∙ (ap (λ u. key u q) d.units ∙ key-mark_in s.units p q);
      },
    )

push_to_fifo :
    (grows : Bool) (s : Pool) (us : List ℕ) (p : ℕ)
    → IsPool s us
    → IsOutside s us p
    → s.fifo_size < u64_max
    → ltb (s.units p).cs_count 32 ≡ false
    → (t : Pool) × (queue_push grows s p ≡ some t) × Pushing s us p t (us ++ p ∷ [])
unfolding queue_push
push_to_fifo grows s us p v o small old =
    let t = queue_push_fifo s p in
    let d = push_fifo_appends s us p v.fifo o.not_null o.not_in_fifo small in
    (
      t,
      rw old refl,
      record {
        valid = record {
          prio =
              IsPrio-move s t (λ i q r. d.same_keys (s.entries i)) d.same_entries d.same_size
                d.same_capacity v.prio;
          fifo = d.fifo;
        };
        added = λ a. rw (d.same_entries, d.same_size) (omega (arith, fifo_count-snoc a p us));
        same_keys = d.same_keys;
      },
    )

total-with_priority :
    (s : Pool) (p a : ℕ) (us : List ℕ) → total a (with_priority s p) us ≡ total a s us
unfolding with_priority
total-with_priority s p a us = ground arith

-- The units of the FIFO part after a push: a unit that has been switched 32 times goes behind them.
abbrev pub fifo_after : Pool → List ℕ → ℕ → List ℕ
fifo_after s us p = if ltb (s.units p).cs_count 32 then us else us ++ p ∷ []

queue_push_adds :
    (grows : Bool) (s : Pool) (us : List ℕ) (p : ℕ)
    → IsPool s us
    → IsOutside s us p
    → s.capacity * 2 ≤ u64_max
    → (leb s.capacity s.size && not grows) ≡ false
    → s.fifo_size < u64_max
    → (t : Pool) × (queue_push grows s p ≡ some t) × Pushing s us p t (fifo_after s us p)
queue_push_adds grows s us p v o bound fits small =
    elim (Bool-cases (ltb (s.units p).cs_count 32)) [
      | inl new ↦ rw new (push_to_heap grows s us p v bound fits new)
      | inr old ↦ rw old (push_to_fifo grows s us p v o small old)
    ]

cs_count-with_priority :
    (s : Pool) (p : ℕ) → ((with_priority s p).units p).cs_count ≡ (s.units p).cs_count
unfolding with_priority
cs_count-with_priority s p = ground arith

-- A push of a unit that is not in the pool, where the heap's memory can grow if it has to: the pool
-- stays well formed with its heap in order, it holds that unit once more and every other unit as
-- often as before, and a unit that has been switched 32 times or more is the last of the FIFO list,
-- while any other goes to the heap.
pub pool_push_adds :
    (grows : Bool) (s : Pool) (us : List ℕ) (p : ℕ)
    → IsPool s us
    → IsOutside s us p
    → s.capacity * 2 ≤ u64_max
    → (leb s.capacity s.size && not grows) ≡ false
    → s.fifo_size < u64_max
    → (t : Pool) × (pool_push grows s p ≡ some t)
      × IsPool t (fifo_after s us p)
      × ((a : ℕ) → total a t (fifo_after s us p) ≡ total a s us + one_if a p)
unfolding pool_push
pool_push_adds grows s us p v o bound fits small =
    let r = with_priority s p in
    let (v', o') = with_priority-IsPool s us p v o in
    let (e, z, c, f, l, k) = with_priority-fields s p in
    let (t, run, d) =
      queue_push_adds grows r us p v' o' (rw c bound) (rw (c, z) fits) (rw k small) in
    let after : fifo_after r us p ≡ fifo_after s us p = rw (cs_count-with_priority s p) refl in
    (
      t,
      run,
      subst (IsPool t) after d.valid,
      λ a.
          ap (λ l. total a t l) (sym after)
          ∙ (d.added a ∙ ap (λ n. n + one_if a p) (total-with_priority s p a us)),
    )

keys-queue_push :
    (grows : Bool) (s t : Pool) (p q : ℕ)
    → queue_push grows s p ≡ some t
    → (key t.units q ≡ key s.units q) × (t.num ≡ s.num)
unfolding queue_push
keys-queue_push grows s t p q e = ground arith

-- A unit that `pool_push` sees for the first time gets a priority above that of every unit known
-- before, none of which changes, and the count of numbers given out stays a bound on all of them:
-- in the order of the heap it comes after the units that came earlier.
pub pool_push_numbers :
    (grows : Bool) (s t : Pool) (p : ℕ)
    → ((q : ℕ) → key s.units q ≤ s.num)
    → key s.units p ≡ 0
    → s.num < u64_max
    → pool_push grows s p ≡ some t
    → (q : ℕ) → q ≢ p
    → (key t.units q ≡ key s.units q) × (key t.units q < key t.units p) × (key t.units p ≡ t.num)
unfolding pool_push with_priority
pool_push_numbers grows s t p bound new small e q other =
    let kq = keys-queue_push grows (with_priority s p) t p q e in
    let kp = keys-queue_push grows (with_priority s p) t p p e in ground (arith, bound q)
