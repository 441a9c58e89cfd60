-- ===== src/PrioPool/Tests.antt =====
-- src/margo-prio-pool.c: the pool at concrete inputs.
use mathlib.Core.List.{Memᴰ}
use mochi_margo.Base.{
  ℕ, zero, suc, ◌-◌, ◌≤◌, ◌≡◌, refl, ap, sym, subst, false, List, [], ◌∷◌, arith, null, ◌==◌,
  if◌then◌else◌, length,
}
use mochi_margo.PrioPool.Defs.{Units, Pool, pool_push, pool_pop, pool_remove, queue_push}
use mochi_margo.PrioPool.Laws.{IsPool, pool_push_refines, Pushing}
use mochi_margo.PrioPool.PopLaws.{taken, Taking, pool_pop_refines}
use mochi_margo.PrioPool.Service.{Runs, low_is_served}
use mochi_margo.PrioPool.Remove.{removed_unit_is_popped}

-- Unit 1 is new, and the others were pushed five times.
abbrev seen : Units
seen = record {
  thread = λ x. x;
  task = λ x. null;
  prev = λ x. null;
  next = λ x. null;
  sched_counter = λ x. if x == 1 then 0 else 5;
  in_pool = λ x. false;
}

-- A pool that was popped 255 times.
abbrev empty : Pool
empty = record {
  units = seen;
  high = record { head = null; tail = null };
  low = record { head = null; tail = null };
  num = 0;
  cnt = 255;
}

empty-IsPool : IsPool empty [] []
empty-IsPool = record {
  high = record { linked = (refl, refl); nonnull = tt; distinct = tt };
  low = record { linked = (refl, refl); nonnull = tt; distinct = tt };
  apart = tt;
  back = tt;
  num = refl;
  small = omega arith;
}

abbrev one : Pool
one = pool_push empty 1

abbrev two : Pool
two = pool_push one 2

abbrev three : Pool
three = pool_push two 3

one-IsPool : IsPool one [] (1 ∷ [])
one-IsPool = (pool_push_refines empty 1 [] [] empty-IsPool (omega arith) tt tt (omega arith)).valid

two-IsPool : IsPool two (2 ∷ []) (1 ∷ [])
unfolding pool_push queue_push
two-IsPool =
    (pool_push_refines one 2 [] (1 ∷ []) one-IsPool (omega arith) tt (omega arith, tt)
      (omega arith)).valid

pool_push_refines_example : Pushing two 3 (2 ∷ 3 ∷ []) (1 ∷ []) three
unfolding pool_push queue_push
pool_push_refines_example =
    pool_push_refines two 3 (2 ∷ []) (1 ∷ []) two-IsPool (omega arith) (omega arith, tt)
      (omega arith, tt) (omega arith)

three-IsPool : IsPool three (2 ∷ 3 ∷ []) (1 ∷ [])
unfolding pool_push queue_push
three-IsPool =
    (pool_push_refines two 3 (2 ∷ []) (1 ∷ []) two-IsPool (omega arith) (omega arith, tt)
      (omega arith, tt) (omega arith)).valid

pool_pop_refines_example : Taking three 2 (3 ∷ []) (1 ∷ []) (pool_pop three)
unfolding pool_push queue_push
pool_pop_refines_example = pool_pop_refines three (2 ∷ 3 ∷ []) (1 ∷ []) three-IsPool

removed_unit_is_popped_example :
    ((pool_remove three 2).num ≡ three.num - 1)
    × ((pool_remove three 2).high ≡ three.high)
    × ((pool_remove three 2).units.in_pool ≡ three.units.in_pool)
    × ((pool_pop (pool_remove three 2)).0 ≡ 2)
unfolding pool_push queue_push
removed_unit_is_popped_example =
    removed_unit_is_popped three 2 (3 ∷ []) (1 ∷ []) three-IsPool (omega arith) (omega arith)

-- So many pops in a row.
record Popping (n : ℕ) : Type 0 where
  out : List ℕ
  pool : Pool
  us : List ℕ
  vs : List ℕ
  runs : Runs three (2 ∷ 3 ∷ []) (1 ∷ []) out pool us vs
  count : length out ≡ n

popping : (n : ℕ) → Popping n
popping zero = record {
  out = [];
  pool = three;
  us = 2 ∷ 3 ∷ [];
  vs = 1 ∷ [];
  runs = Runs.start;
  count = refl;
}
popping (suc n) =
    let p = popping n in
    record {
      out = (pool_pop p.pool).0 ∷ p.out;
      pool = (pool_pop p.pool).1;
      us = (taken p.pool p.us p.vs).1;
      vs = (taken p.pool p.us p.vs).2;
      runs = Runs.pop p.runs;
      count = ap suc p.count;
    }

low_is_served_example : Memᴰ 1 (popping 256).out
low_is_served_example =
    low_is_served three (2 ∷ 3 ∷ []) 1 [] three-IsPool (popping 256).runs
      (subst (λ k. 256 ≤ k) (sym (popping 256).count) (omega arith))
