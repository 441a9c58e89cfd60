-- ===== src/PrioPool/Defs.antt =====
-- src/margo-prio-pool.c: units, the two circular lists, and the pool. A unit is known by its
-- address, 0 is null, and each field of `unit_t` is a map over addresses. The mutex and the
-- condition variable show only in `pool_pop_timedwait`. `num` and `cnt` are words of 32 bits.
use mochi_margo.Base.{
  ℕ, ◌+◌, ◌-◌, ◌%◌, ◌^◌, Bool, true, false, ◌||◌, not, ltb, leb, ◌==◌, if◌then◌else◌, update, null,
}

-- The fields of `unit_t`.
pub record Units : Type 0 where
  pub thread : ℕ → ℕ
  pub task : ℕ → ℕ
  pub prev : ℕ → ℕ
  pub next : ℕ → ℕ
  pub sched_counter : ℕ → ℕ
  pub in_pool : ℕ → Bool

-- `queue_t`
pub record Queue : Type 0 where
  pub head : ℕ
  pub tail : ℕ

-- `pool_t`, with the memory of the units.
pub record Pool : Type 0 where
  pub units : Units
  pub high : Queue
  pub low : Queue
  pub num : ℕ
  pub cnt : ℕ

-- `SCHED_COUNTER_PRIORITY_LIMIT`
abbrev pub limit : ℕ
limit = 25

-- `queue_push`
unfoldable pub queue_push : Units → Queue → ℕ → Units × Queue
queue_push m q p =
    if q.head == null
    then (
      record m {
        next = update m.next p p;
        prev = update m.prev p p;
        in_pool = update m.in_pool p true;
      },
      record { head = p; tail = p },
    )
    else (
      record m {
        next = update (update m.next q.tail p) p q.head;
        prev = update (update m.prev q.head p) p q.tail;
        in_pool = update m.in_pool p true;
      },
      record q { tail = p },
    )

-- `queue_pop`: the unit that it returns comes first.
unfoldable pub queue_pop : Units → Queue → ℕ × Units × Queue
queue_pop m q =
    let p = q.head in
    let single = q.head == q.tail in
    let next = if single then m.next else update m.next (m.prev p) (m.next p) in
    let prev = if single then m.prev else update m.prev (next p) (m.prev p) in
    if q.head == null then (null, m, q) else (
      p,
      record m {
        next = update next p null;
        prev = update prev p null;
        in_pool = update m.in_pool p false;
      },
      if single then record { head = null; tail = null } else record q { head = next p },
    )

-- `pool_unit_create_from_thread` and `pool_unit_create_from_task` at the address that `malloc`
-- returned, where `ABT_THREAD_NULL` and `ABT_TASK_NULL` are null.
unfoldable pub unit_create : Units → (p thread task : ℕ) → Units
unit_create m p thread task = record {
  thread = update m.thread p thread;
  task = update m.task p task;
  prev = update m.prev p null;
  next = update m.next p null;
  sched_counter = update m.sched_counter p 0;
  in_pool = update m.in_pool p false;
}

-- `pool_init`
unfoldable pub pool_init : Units → Pool
pool_init m = record {
  units = m;
  high = record { head = null; tail = null };
  low = record { head = null; tail = null };
  num = 0;
  cnt = 0;
}

-- The counter of a unit that is pushed, and whether the unit goes to the low-priority list.
abbrev pub counted : Units → ℕ → Units
counted m p =
    if ltb (m.sched_counter p) limit
    then record m { sched_counter = update m.sched_counter p (m.sched_counter p + 1) }
    else m

abbrev pub goes_low : Units → ℕ → Bool
goes_low m p = (m.sched_counter p == 0) || leb limit (m.sched_counter p)

-- `pool_push`
unfoldable pub pool_push : Pool → ℕ → Pool
pool_push s p =
    let m = counted s.units p in
    let num = (s.num + 1) % 2 ^ 32 in
    if goes_low s.units p
    then (let (m', q) = queue_push m s.low p in record s { units = m'; low = q; num = num })
    else (let (m', q) = queue_push m s.high p in record s { units = m'; high = q; num = num })

-- Try a list, and return null if it is empty.
abbrev pub pop_high : Pool → ℕ × Pool
pop_high s = let (p, m, q) = queue_pop s.units s.high in (p, record s { units = m; high = q })

abbrev pub pop_low : Pool → ℕ × Pool
pop_low s = let (p, m, q) = queue_pop s.units s.low in (p, record s { units = m; low = q })

-- The second list is tried where the first gave nothing.
abbrev pub or_else : ℕ × Pool → (Pool → ℕ × Pool) → ℕ × Pool
or_else (p, s) other = if p == null then other s else (p, s)

-- The block under the mutex, `do { ... } while (0)` and the count.
unfoldable pub pop_locked : Pool → ℕ × Pool
pop_locked s =
    let t = record s { cnt = (s.cnt + 1) % 2 ^ 32 } in
    let high_first = or_else (pop_high t) pop_low in
    let low_first = or_else (pop_low t) pop_high in
    let (p, r) = if not (s.cnt % 256 == 0) then high_first else low_first in
    (p, if p == null then r else record r { num = (r.num + 2 ^ 32 - 1) % 2 ^ 32 })

-- `pool_pop`
unfoldable pub pool_pop : Pool → ℕ × Pool
unfolding pop_locked
pool_pop s = if s.num == 0 then (null, s) else pop_locked s

-- `pool_pop_timedwait`; `woken` is the pool as it is found after the wait.
unfoldable pub pool_pop_timedwait : (s woken : Pool) → ℕ × Pool
unfolding pop_locked
pool_pop_timedwait s woken = pop_locked (if s.num == 0 then woken else s)

-- The two halves of `pool_remove`.
abbrev pub unlink_prev : Pool → ℕ → Pool
unlink_prev s p =
    if not (s.units.prev p == null)
    then record s {
      units = record (s.units) { next = update s.units.next (s.units.prev p) (s.units.next p) };
    }
    else if s.high.head == p
    then record s { high = record (s.high) { head = s.units.next p } }
    else if s.low.head == p
    then record s { low = record (s.low) { head = s.units.next p } }
    else s

abbrev pub unlink_next : Pool → ℕ → Pool
unlink_next s p =
    if not (s.units.next p == null)
    then record s {
      units = record (s.units) { prev = update s.units.prev (s.units.next p) (s.units.prev p) };
    }
    else if s.high.tail == p
    then record s { high = record (s.high) { tail = s.units.prev p } }
    else if s.low.tail == p
    then record s { low = record (s.low) { tail = s.units.prev p } }
    else s

-- `pool_remove`
unfoldable pub pool_remove : Pool → ℕ → Pool
pool_remove s p =
    let t = unlink_next (unlink_prev s p) p in record t { num = (t.num + 2 ^ 32 - 1) % 2 ^ 32 }
