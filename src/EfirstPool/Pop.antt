-- ===== src/EfirstPool/Pop.antt =====
-- src/margo-efirst-pool.c: which unit `pool_pop` takes from the pool.
use mochi_margo.Base.{
  ℕ, ◌+◌, ◌%◌, ◌≤◌, ◌<◌, ◌≡◌, ◌≢◌, ◌⊎◌, refl, ap, ◌∙◌, sym, inl, inr, Bool, true, false, ◌&&◌, not,
  some, List, [], ◌∷◌, arith, ltb, ◌==◌, Bool-cases, u64_max, null, add_u64,
}
use mochi_margo.EfirstPool.Heap.{one_if}
use mochi_margo.EfirstPool.Queue.{
  WorkUnit, Pool, key, flip_in, queue_pop_prio, queue_pop_fifo, queue_pop, pool_pop,
}
use mochi_margo.EfirstPool.PrioLaws.{prio_count, key-flip_in, pop_prio_removes}
use mochi_margo.EfirstPool.Fifo.{next_of, pop_fifo_removes}
use mochi_margo.EfirstPool.Laws.{IsPool, total, IsFifo-move, IsPrio-move}

-- What a pop takes, and from where: the heap's unit of the least priority, or the oldest of the
-- FIFO list.
pub record Popping (s : Pool) (us : List ℕ) (p : ℕ) (t : Pool) (us' : List ℕ) : Type 0 where
  pub valid : IsPool t us'
  pub removed : (a : ℕ) → total a s us ≡ total a t us' + one_if a p
  pub same_keys : (q : ℕ) → key t.units q ≡ key s.units q
  pub origin :
      ((us' ≡ us) × ((a : ℕ) → 0 < prio_count a s → key s.units p ≤ key s.units a)) ⊎ (us ≡ p ∷ us')

next-flip_in : (units : ℕ → WorkUnit) (p x : ℕ) → next_of (flip_in units p) x ≡ next_of units x
next-flip_in units p x = ground arith

from_heap :
    (s : Pool) (us : List ℕ)
    → IsPool s us
    → s.size ≢ 0
    → (t : Pool) × (queue_pop_prio s ≡ some (s.entries 1, t)) × Popping s us (s.entries 1) t us
from_heap s us v some_left =
    let (t, run, d) = pop_prio_removes s v.prio some_left in
    (
      t,
      run,
      record {
        valid = record {
          prio = d.valid;
          fifo =
              IsFifo-move s t us
                (λ x. ap (λ u. next_of u x) d.units ∙ next-flip_in s.units (s.entries 1) x)
                d.same_first d.same_last d.same_fifo v.fifo;
        };
        removed = λ a. omega (arith, d.removed a);
        same_keys = λ q. ap (λ u. key u q) d.units ∙ key-flip_in s.units (s.entries 1) q;
        origin = inl (refl, d.least);
      },
    )

from_fifo :
    (s : Pool) (u : ℕ) (us : List ℕ)
    → IsPool s (u ∷ us)
    → s.fifo_size ≤ u64_max
    → (t : Pool) × (queue_pop_fifo s ≡ (u, t)) × Popping s (u ∷ us) u t us
from_fifo s u us v small =
    let (t, run, d) = pop_fifo_removes s u us v.fifo small in
    (
      t,
      run,
      record {
        valid = record {
          prio =
              IsPrio-move s t (λ i q r. d.same_keys (s.entries i)) d.same_entries d.same_size
                d.same_capacity v.prio;
          fifo = d.fifo;
        };
        removed = λ a. rw (d.same_entries, d.same_size) (omega arith);
        same_keys = d.same_keys;
        origin = inr refl;
      },
    )

-- Whether this pop looks into the FIFO list first.
abbrev pub fifo_turn : Pool → Bool
fifo_turn s = add_u64 s.pops 1 % 2 == 0

abbrev tick : Pool → Pool
tick s = record s { pops = add_u64 s.pops 1 }

tick-IsPool : (s : Pool) (us : List ℕ) → IsPool s us → IsPool (tick s) us
tick-IsPool s us v = record {
  prio = IsPrio-move s (tick s) (λ i q r. refl) refl refl refl v.prio;
  fifo = IsFifo-move s (tick s) us (λ x. refl) refl refl refl v.fifo;
}

untick : (s t : Pool) (us us' : List ℕ) (p : ℕ) → Popping (tick s) us p t us' → Popping s us p t us'
untick s t us us' p d = record {
  valid = d.valid;
  removed = d.removed;
  same_keys = d.same_keys;
  origin = d.origin;
}

-- A pop of a certain unit.
abbrev Takes : Pool → List ℕ → ℕ → List ℕ → Type 0
Takes s us p us' = (t : Pool) × (queue_pop s ≡ some (p, t)) × Popping s us p t us'

take_heap :
    (s : Pool) (us : List ℕ)
    → IsPool s us
    → s.size ≢ 0
    → (fifo_turn s && ltb 0 s.fifo_size) ≡ false
    → Takes s us (s.entries 1) us
unfolding queue_pop
take_heap s us v some_left turn =
    let (t, run, d) = from_heap (tick s) us (tick-IsPool s us v) some_left in
    let nonempty : ltb 0 s.size ≡ true = ground arith in
    (t, ground (arith, run), untick s t us us (s.entries 1) d)

take_fifo :
    (s : Pool) (u : ℕ) (us : List ℕ)
    → IsPool s (u ∷ us)
    → s.fifo_size ≤ u64_max
    → (not (fifo_turn s) && ltb 0 s.size) ≡ false
    → Takes s (u ∷ us) u us
unfolding queue_pop
take_fifo s u us v small turn =
    let (t, run, d) = from_fifo (tick s) u us (tick-IsPool s (u ∷ us) v) small in
    let nonempty : ltb 0 s.fifo_size ≡ true = ground (arith, v.fifo.sized) in
    (t, ground (arith, run), untick s t (u ∷ us) us u d)

-- Where there is a unit, `pool_pop` is `queue_pop`.
pool_pop-queue_pop :
    (s t : Pool) (us us' : List ℕ) (p : ℕ)
    → (s.size == 0 && s.fifo_size == 0) ≡ false
    → queue_pop s ≡ some (p, t)
    → pool_pop s ≡ some (p, t)
unfolding pool_pop
pool_pop-queue_pop s t us us' p h e = rw h e

pool_pop-empty : (s : Pool) → (s.size == 0 && s.fifo_size == 0) ≡ true → pool_pop s ≡ some (null, s)
unfolding pool_pop
pool_pop-empty s h = rw h refl

-- On a well-formed pool `pool_pop` returns NULL and changes nothing if both parts are empty.
-- Otherwise it returns a unit and leaves a well-formed pool without that unit and with every other
-- one; the unit is one of the least priority in the heap, or the oldest of the FIFO list.
pub pool_pop_takes :
    (s : Pool) (us : List ℕ)
    → IsPool s us
    → s.fifo_size ≤ u64_max
    → ((s.size ≡ 0) × (us ≡ []) × (pool_pop s ≡ some (null, s)))
      ⊎ ((p : ℕ) × (t : Pool) × (us' : List ℕ) × (pool_pop s ≡ some (p, t)) × Popping s us p t us')
pool_pop_takes s [] v small = elim (Bool-cases (s.size == 0)) [
  | inl e ↦ inl (ground arith, refl, pool_pop-empty s (ground (arith, v.fifo.sized)))
  | inr n ↦
      let (t, run, d) = take_heap s [] v (ground arith) (ground (arith, v.fifo.sized)) in
      inr (_, t, [], pool_pop-queue_pop s t [] [] _ (rw n refl) run, d)
]
pool_pop_takes s (u ∷ us) v small =
    let some_left : (s.size == 0 && s.fifo_size == 0) ≡ false = ground (arith, v.fifo.sized) in
    elim (Bool-cases (not (fifo_turn s) && ltb 0 s.size)) [
      | inr turn ↦
          let (t, run, d) = take_fifo s u us v small turn in
          inr (u, t, us, pool_pop-queue_pop s t us us u some_left run, d)
      | inl turn ↦
          let (t, run, d) = take_heap s (u ∷ us) v (ground arith) (ground arith) in
          inr (_, t, u ∷ us, pool_pop-queue_pop s t us us _ some_left run, d)
    ]

after_pop : (s t : Pool) (p : ℕ) → queue_pop s ≡ some (p, t) → t.pops ≡ add_u64 s.pops 1
unfolding queue_pop
after_pop s t p e = ground arith

turn_flips : (s t : Pool) → t.pops ≡ add_u64 s.pops 1 → fifo_turn s ≡ false → fifo_turn t ≡ true
turn_flips s t e h = ground arith

-- The oldest unit of the FIFO list is taken by this pop or by the next one, however many units of
-- the heap there are.
pub fifo_waits_twice :
    (s : Pool) (u : ℕ) (us : List ℕ)
    → IsPool s (u ∷ us)
    → s.fifo_size ≤ u64_max
    → (p : ℕ) × (t : Pool) × (pool_pop s ≡ some (p, t))
      × ((p ≡ u) ⊎ ((r : Pool) × (pool_pop t ≡ some (u, r))))
fifo_waits_twice s u us v small =
    let some_left : (s.size == 0 && s.fifo_size == 0) ≡ false = ground (arith, v.fifo.sized) in
    elim (Bool-cases (not (fifo_turn s) && ltb 0 s.size)) [
      | inr turn ↦
          let (t, run, d) = take_fifo s u us v small turn in
          (u, t, pool_pop-queue_pop s t us us u some_left run, inl refl)
      | inl turn ↦
          let (t, run, d) = take_heap s (u ∷ us) v (ground arith) (ground arith) in
          let pops = after_pop s t _ run in
          let same : t.fifo_size ≡ s.fifo_size = sym d.valid.fifo.sized ∙ v.fifo.sized in
          let next : (not (fifo_turn t) && ltb 0 t.size) ≡ false =
            ground (arith, turn_flips s t pops (ground arith)) in
          let (r, run', d') = take_fifo t u us d.valid (rw same small) next in
          (
            _,
            t,
            pool_pop-queue_pop s t us us _ some_left run,
            inr (r, pool_pop-queue_pop t r us us u (ground (arith, d.valid.fifo.sized)) run'),
          )
    ]
