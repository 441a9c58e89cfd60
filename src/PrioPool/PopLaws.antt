-- ===== src/PrioPool/PopLaws.antt =====
-- src/margo-prio-pool.c: which unit `pool_pop` takes, and the pool that it leaves.
use mochi_margo.Base.{
  ℕ, ◌+◌, ◌-◌, ◌%◌, ◌^◌, ◌≡◌, ◌≢◌, inl, inr, refl, not, List, [], ◌∷◌, arith, null, ◌==◌,
  if◌then◌else◌, Bool-cases,
}
use mochi_margo.PrioPool.Defs.{Pool, queue_pop, pop_locked, pool_pop}
use mochi_margo.PrioPool.QueueLaws.{IsQueue-frame, pop_takes, pop_nothing}
use mochi_margo.PrioPool.Laws.{IsPool, popped, Apart-shrink}

-- The pool after the head of a list was taken.
abbrev from_high : Pool → Pool
from_high s =
    let r = queue_pop s.units s.high in
    record s {
      units = r.1;
      high = r.2;
      cnt = (s.cnt + 1) % 2 ^ 32;
      num = (s.num + 2 ^ 32 - 1) % 2 ^ 32;
    }

abbrev from_low : Pool → Pool
from_low s =
    let r = queue_pop s.units s.low in
    record s {
      units = r.1;
      low = r.2;
      cnt = (s.cnt + 1) % 2 ^ 32;
      num = (s.num + 2 ^ 32 - 1) % 2 ^ 32;
    }

module _ (s : Pool) (p : ℕ) (here : p ≢ null) (some_left : s.num ≢ 0) where
  pub high_first :
      (queue_pop s.units s.high).0 ≡ p → s.cnt % 256 ≢ 0 → pool_pop s ≡ (p, from_high s)
  unfolding pool_pop pop_locked
  high_first e n = ground (arith, e, n)

  low_first : (queue_pop s.units s.low).0 ≡ p → s.cnt % 256 ≡ 0 → pool_pop s ≡ (p, from_low s)
  unfolding pool_pop pop_locked
  low_first e n = ground (arith, e, n)

  high_second :
      (queue_pop s.units s.high).0 ≡ p
      → s.cnt % 256 ≡ 0
      → queue_pop s.units s.low ≡ (null, s.units, s.low)
      → pool_pop s ≡ (p, from_high s)
  unfolding pool_pop pop_locked
  high_second e n f = ground (arith, e, n, f)

  low_second :
      (queue_pop s.units s.low).0 ≡ p
      → s.cnt % 256 ≢ 0
      → queue_pop s.units s.high ≡ (null, s.units, s.high)
      → pool_pop s ≡ (p, from_low s)
  unfolding pool_pop pop_locked
  low_second e n f = ground (arith, e, n, f)

pop_empty : (s : Pool) → s.num ≡ 0 → pool_pop s ≡ (null, s)
unfolding pool_pop
pop_empty s e = rw e

-- What a pop leaves: a pool with the given lists, which counted the pop and changed no counter of
-- a unit.
pub record Taking (s : Pool) (p : ℕ) (us vs : List ℕ) (r : ℕ × Pool) : Type 0 where
  pub unit : r.0 ≡ p
  pub valid : IsPool r.1 us vs
  pub same_counter : r.1.units.sched_counter ≡ s.units.sched_counter
  pub cnt : r.1.cnt ≡ (if s.num == 0 then s.cnt else (s.cnt + 1) % 2 ^ 32)

module _ (s : Pool) (p : ℕ) (us vs : List ℕ) where
  Taking-high : IsPool s (p ∷ us) vs → Taking s p us vs (p, from_high s)
  Taking-high v =
      let d = pop_takes s.units s.high p us v.high in
      record {
        unit = refl;
        valid = record {
          high = d.queue;
          low = IsQueue-frame s.units (from_high s).units s.low (p ∷ us) vs d.spares v.apart v.low;
          apart = Apart-shrink p us vs v.apart;
          back = v.back.1;
          num = ground (arith, v.num, v.small);
          small = omega arith;
        };
        same_counter = d.same_counter;
        cnt = ground (arith, v.num);
      }

  Taking-low : IsPool s us (p ∷ vs) → Taking s p us vs (p, from_low s)
  Taking-low v =
      let d = pop_takes s.units s.low p vs v.low in
      record {
        unit = refl;
        valid = record {
          low = d.queue;
          high = IsQueue-frame s.units (from_low s).units s.high (p ∷ vs) us d.spares v.back v.high;
          apart = v.apart.1;
          back = Apart-shrink p vs us v.back;
          num = ground (arith, v.num, v.small);
          small = omega arith;
        };
        same_counter = d.same_counter;
        cnt = ground (arith, v.num);
      }

-- What a pop takes from a pool with these lists, the low-priority list first every 256th time.
abbrev pub taken : Pool → List ℕ → List ℕ → ℕ × List ℕ × List ℕ
taken s us vs = popped (not (s.cnt % 256 == 0)) us vs

pop_both :
    (s : Pool) (u : ℕ) (us : List ℕ) (v : ℕ) (vs : List ℕ)
    → IsPool s (u ∷ us) (v ∷ vs)
    → Taking s
        (taken s (u ∷ us) (v ∷ vs)).0
        (taken s (u ∷ us) (v ∷ vs)).1
        (taken s (u ∷ us) (v ∷ vs)).2
        (pool_pop s)
pop_both s u us v vs w = elim (Bool-cases (s.cnt % 256 == 0)) [
  | inl e ↦
      let run =
        low_first s v w.low.nonnull.0 (omega (arith, w.num))
          (pop_takes s.units s.low v vs w.low).unit (ground (arith, e)) in
      rw (e, run) (Taking-low s v (u ∷ us) vs w)
  | inr e ↦
      let run =
        high_first s u w.high.nonnull.0 (omega (arith, w.num))
          (pop_takes s.units s.high u us w.high).unit (ground (arith, e)) in
      rw (e, run) (Taking-high s u us (v ∷ vs) w)
]

pop_only_high :
    (s : Pool) (u : ℕ) (us : List ℕ) → IsPool s (u ∷ us) [] → Taking s u us [] (pool_pop s)
pop_only_high s u us w =
    let unit = (pop_takes s.units s.high u us w.high).unit in
    let here = w.high.nonnull.0 in
    let left : s.num ≢ 0 = omega (arith, w.num) in
    let nothing = pop_nothing s.units s.low w.low in
    elim (Bool-cases (s.cnt % 256 == 0)) [
      | inl e ↦
          rw (high_second s u here left unit (ground (arith, e)) nothing) (Taking-high s u us [] w)
      | inr e ↦ rw (high_first s u here left unit (ground (arith, e))) (Taking-high s u us [] w)
    ]

pop_only_low :
    (s : Pool) (v : ℕ) (vs : List ℕ) → IsPool s [] (v ∷ vs) → Taking s v [] vs (pool_pop s)
pop_only_low s v vs w =
    let unit = (pop_takes s.units s.low v vs w.low).unit in
    let here = w.low.nonnull.0 in
    let left : s.num ≢ 0 = omega (arith, w.num) in
    let nothing = pop_nothing s.units s.high w.high in
    elim (Bool-cases (s.cnt % 256 == 0)) [
      | inl e ↦ rw (low_first s v here left unit (ground (arith, e))) (Taking-low s v [] vs w)
      | inr e ↦
          rw (low_second s v here left unit (ground (arith, e)) nothing) (Taking-low s v [] vs w)
    ]

-- On a pool whose two lists are well formed `pool_pop` takes the head of the high-priority list; it
-- takes the head of the low-priority list if the other is empty, or if the number of pops counted before is a multiple of 256 and both
-- have a unit. It gives null, and changes nothing, only if both are empty. The lists, the number
-- of units and the count of pops are then those of the FIFO queues without that unit.
pub pool_pop_refines :
    (s : Pool) (us vs : List ℕ)
    → IsPool s us vs
    → Taking s (taken s us vs).0 (taken s us vs).1 (taken s us vs).2 (pool_pop s)
pool_pop_refines s [] [] w =
    rw (pop_empty s w.num) (record { unit = refl; valid = w; same_counter = refl; cnt = rw w.num })
pool_pop_refines s [] (v ∷ vs) w = pop_only_low s v vs w
pool_pop_refines s (u ∷ us) [] w = pop_only_high s u us w
pool_pop_refines s (u ∷ us) (v ∷ vs) w = pop_both s u us v vs w
