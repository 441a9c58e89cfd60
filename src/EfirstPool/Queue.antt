-- ===== src/EfirstPool/Queue.antt =====
-- src/margo-efirst-pool.c: units, the queue made of the heap and a list of old units, and the pool.
-- A unit is known by its address, 0 is null. The two bits of `flag` are two Booleans. The mutex and
-- the condition variable show only in `pool_pop_timedwait`; allocations other than `realloc` succeed.
use mochi_margo.Base.{
  ℕ, ◌+◌, ◌%◌, Bool, true, false, ◌&&◌, not, Option, none, some, ltb, leb, ◌==◌, if◌then◌else◌,
  ◌>>=◌, update, null, add_u64, sub_u64, mul_u64,
}
use mochi_margo.EfirstPool.Heap.Up.{up_loop}
use mochi_margo.EfirstPool.Heap.Down.{down_loop}

-- `unit_t`; `body` is the thread or the task.
pub record WorkUnit : Type 0 where
  pub body : ℕ
  pub priority : ℕ
  pub in_pool : Bool
  pub is_thread : Bool
  pub cs_count : ℕ
  pub next : ℕ

-- `pool_t` and its `queue_t`, with the memory of the units.
pub record Pool : Type 0 where
  pub units : ℕ → WorkUnit
  pub pops : ℕ
  pub entries : ℕ → ℕ
  pub capacity : ℕ
  pub size : ℕ
  pub first : ℕ
  pub last : ℕ
  pub fifo_size : ℕ
  pub num : ℕ

abbrev pub key : (ℕ → WorkUnit) → ℕ → ℕ
key units p = (units p).priority

-- `pool_unit_create_from_thread`, `pool_unit_create_from_task`
unfoldable pub unit_from_thread : ℕ → WorkUnit
unit_from_thread thread = record {
  body = thread;
  priority = 0;
  in_pool = false;
  is_thread = true;
  cs_count = 0;
  next = null;
}

unfoldable pub unit_from_task : ℕ → WorkUnit
unit_from_task task = record {
  body = task;
  priority = 0;
  in_pool = false;
  is_thread = false;
  cs_count = 0;
  next = null;
}

-- `pool_init`, with `create_queue(32)`
unfoldable pub pool_init : (ℕ → WorkUnit) → (ℕ → ℕ) → Pool
pool_init units entries = record {
  units = units;
  pops = 0;
  entries = entries;
  capacity = 32;
  size = 0;
  first = null;
  last = null;
  fifo_size = 0;
  num = 0;
}

-- `flag |= IS_IN_POOL` and `flag ^= IS_IN_POOL`
abbrev pub mark_in : (ℕ → WorkUnit) → ℕ → ℕ → WorkUnit
mark_in units p = update units p (record (units p) { in_pool = true })

abbrev pub flip_in : (ℕ → WorkUnit) → ℕ → ℕ → WorkUnit
flip_in units p = update units p (record (units p) { in_pool = not (units p).in_pool })

abbrev pub set_next : (ℕ → WorkUnit) → ℕ → ℕ → ℕ → WorkUnit
set_next units p q = update units p (record (units p) { next = q })

-- The capacity after `queue_push_prio` has made room.
abbrev pub grown : Pool → ℕ
grown s = if leb s.capacity s.size then mul_u64 s.capacity 2 else s.capacity

-- `queue_push_prio`; `grows` is whether `realloc` succeeds, `none` a write through a null pointer.
unfoldable pub queue_push_prio : (grows : Bool) → Pool → ℕ → Option Pool
queue_push_prio grows s p = if leb s.capacity s.size && not grows then none else do
  entries ← up_loop (key s.units) (s.size + 1) s.entries p (s.size + 1)
  some (record s {
    entries = entries;
    capacity = grown s;
    size = add_u64 s.size 1;
    units = mark_in s.units p;
  })

-- `queue_push_fifo`
unfoldable pub queue_push_fifo : Pool → ℕ → Pool
queue_push_fifo s p =
    let cleared = set_next s.units p null in
    let empty = s.fifo_size == 0 in
    let linked = if empty then cleared else set_next cleared s.last p in
    record s {
      units = mark_in linked p;
      first = if empty then p else s.first;
      last = p;
      fifo_size = add_u64 s.fifo_size 1;
    }

-- `queue_push`; the counter of context switches is a byte.
unfoldable pub queue_push : (grows : Bool) → Pool → ℕ → Option Pool
unfolding queue_push_prio queue_push_fifo
queue_push grows s p =
    if ltb (s.units p).cs_count 32
    then (do
      s' ← queue_push_prio grows s p
      let unit = s'.units p
      some (record s' {
        units = update s'.units p (record unit { cs_count = (unit.cs_count + 1) % 256 });
      }))
    else some (queue_push_fifo s p)

-- `queue_pop_prio`; the first component is what it returns.
unfoldable pub queue_pop_prio : Pool → Option (ℕ × Pool)
queue_pop_prio s = if s.size == 0 then some (null, s) else do
  let min_entry = s.entries 1
  let left = sub_u64 s.size 1
  entries ← down_loop (key s.units) (left + 1) s.entries left (s.entries s.size) 1
  some (min_entry, record s { entries = entries; size = left; units = flip_in s.units min_entry })

-- `queue_pop_fifo`
unfoldable pub queue_pop_fifo : Pool → ℕ × Pool
queue_pop_fifo s =
    let p = s.first in
    let left = sub_u64 s.fifo_size 1 in
    if s.fifo_size == 0 then (null, s) else (
      p,
      record s {
        first = (s.units p).next;
        fifo_size = left;
        last = if left == 0 then null else s.last;
        units = flip_in (set_next s.units p null) p;
      },
    )

-- `queue_pop`
unfoldable pub queue_pop : Pool → Option (ℕ × Pool)
unfolding queue_pop_prio queue_pop_fifo
queue_pop s =
    let t = record s { pops = add_u64 s.pops 1 } in
    if t.pops % 2 == 0
    then (if ltb 0 t.fifo_size then some (queue_pop_fifo t) else queue_pop_prio t)
    else (if ltb 0 t.size then queue_pop_prio t else some (queue_pop_fifo t))

-- `pool_get_size`
unfoldable pub pool_get_size : Pool → ℕ
pool_get_size s = add_u64 s.size s.fifo_size

-- The units as `pool_push` passes them on: a new unit gets the next number for its priority.
unfoldable pub with_priority : Pool → ℕ → Pool
with_priority s p =
    let num = add_u64 s.num 1 in
    if (s.units p).priority == 0
    then record s { num = num; units = update s.units p (record (s.units p) { priority = num }) }
    else s

-- `pool_push`
unfoldable pub pool_push : (grows : Bool) → Pool → ℕ → Option Pool
unfolding with_priority queue_push
pool_push grows s p = queue_push grows (with_priority s p) p

-- `pool_pop`
unfoldable pub pool_pop : Pool → Option (ℕ × Pool)
unfolding queue_pop
pool_pop s = if s.size == 0 && s.fifo_size == 0 then some (null, s) else queue_pop s

-- `pool_pop_timedwait`; `woken` is the pool as it is found after the wait.
unfoldable pub pool_pop_timedwait : (s woken : Pool) → Option (ℕ × Pool)
unfolding queue_pop
pool_pop_timedwait s woken = queue_pop (if s.size == 0 && s.fifo_size == 0 then woken else s)
