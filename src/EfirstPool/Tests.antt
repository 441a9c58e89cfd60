-- ===== src/EfirstPool/Tests.antt =====
-- src/margo-efirst-pool.c: a run, and the theorems at concrete pools.
use mochi_margo.Base.{
  ℕ, ◌+◌, ◌≤◌, ◌≡◌, ◌⊎◌, refl, true, false, Option, some, List, [], ◌∷◌, arith, ◌>>=◌, null, update,
}
use mochi_margo.EfirstPool.Heap.{one_if, count-zero}
use mochi_margo.EfirstPool.Heap.Up.{up_loop}
use mochi_margo.EfirstPool.Heap.Down.{down_loop, lesser_child}
use mochi_margo.EfirstPool.Queue.{WorkUnit, Pool, key, pool_push, pool_pop}
use mochi_margo.EfirstPool.Laws.{IsPool, IsOutside, total}
use mochi_margo.EfirstPool.Push.{pool_push_adds, fifo_after}
use mochi_margo.EfirstPool.Pop.{pool_pop_takes, Popping}

-- Unit 7 is old; the others are new.
abbrev units : ℕ → WorkUnit
units =
    update
      (λ p. record {
        body = p;
        priority = 0;
        in_pool = false;
        is_thread = true;
        cs_count = 0;
        next = 0;
      })
      7
      (record {
        body = 7;
        priority = 2;
        in_pool = false;
        is_thread = true;
        cs_count = 32;
        next = 0;
      })

abbrev empty : Pool
empty = record {
  units = units;
  pops = 0;
  entries = λ i. 0;
  capacity = 32;
  size = 0;
  first = 0;
  last = 0;
  fifo_size = 0;
  num = 2;
}

-- Push 5, 6, then the old unit 7; pop three times.
run : Option (List ℕ)
unfolding pool_push pool_pop up_loop down_loop lesser_child
run = do
  a ← pool_push true empty 5
  b ← pool_push true a 6
  c ← pool_push true b 7
  (p, d) ← pool_pop c
  (q, e) ← pool_pop d
  (r, f) ← pool_pop e
  some (p ∷ q ∷ r ∷ [])

run_test : run ≡ some (5 ∷ 7 ∷ 6 ∷ [])
unfolding run
run_test = refl

empty-IsPool : IsPool empty []
empty-IsPool = record {
  prio = record {
    heap = λ c p q. absurd (omega arith);
    room = omega arith;
    some_room = omega arith;
    word = omega arith;
  };
  fifo = record { chain = refl; ends = refl; sized = refl; distinct = tt };
}

outside : IsOutside empty [] 5
outside = record {
  not_null = λ e. absurd (omega arith);
  not_in_heap = count-zero 5 (λ i. 0);
  not_in_fifo = tt;
}

pool_push_adds_example :
    (t : Pool) × (pool_push true empty 5 ≡ some t)
    × IsPool t (fifo_after empty [] 5)
    × ((a : ℕ) → total a t (fifo_after empty [] 5) ≡ total a empty [] + one_if a 5)
pool_push_adds_example =
    pool_push_adds true empty [] 5 empty-IsPool outside (omega arith) refl (omega arith)

abbrev one_old : Pool
one_old = record empty {
  units = update units 7 (record (units 7) { in_pool = true });
  first = 7;
  last = 7;
  fifo_size = 1;
}

one_old-IsPool : IsPool one_old (7 ∷ [])
one_old-IsPool = record {
  prio = record {
    heap = λ c p q. absurd (omega arith);
    room = omega arith;
    some_room = omega arith;
    word = omega arith;
  };
  fifo = record {
    chain = (refl, (λ e. absurd (omega arith)), refl);
    ends = refl;
    sized = refl;
    distinct = (tt, tt);
  };
}

pool_pop_takes_example :
    ((one_old.size ≡ 0)
      × (◌≡◌ {A = List ℕ} (7 ∷ []) [])
      × (pool_pop one_old ≡ some (null, one_old)))
    ⊎ ((p : ℕ) × (t : Pool) × (us' : List ℕ) × (pool_pop one_old ≡ some (p, t))
        × Popping one_old (7 ∷ []) p t us')
pool_pop_takes_example = pool_pop_takes one_old (7 ∷ []) one_old-IsPool (omega arith)

abbrev pushed : (t : Pool) × (pool_push true empty 5 ≡ some t)
pushed =
    let (t, e, v, c) =
      pool_push_adds true empty [] 5 empty-IsPool outside (omega arith) refl (omega arith) in
    (t, e)

known : (q : ℕ) → key empty.units q ≤ empty.num
known q = ground arith
