-- ===== src/Timer/Defs.antt =====
-- src/margo-timer.c: timers, the list of those that were started, and the operations. Times are
-- whole numbers of one unit, and a ULT that is created is an event of the operation that creates
-- it. A wait on a condition variable returns to the caller as the case where it blocks.
use mochi_margo.Base.{
  ℕ, zero, suc, ◌+◌, ◌-◌, Bool, true, false, ◌&&◌, ◌||◌, not, ltb, ◌==◌, if◌then◌else◌, update,
  null, Option, none, some, List, [], ◌∷◌, add_u64, sub_u64,
}
use mochi_margo.Timer.Dl.{Dl}

-- `margo_timer`, less its links, its list and its callback, which the timer's address stands for.
pub record Timer : Type 0 where
  pub pool : ℕ
  pub expiration : ℕ
  pub num_pending : ℕ
  pub canceled : Bool
  pub destroy_requested : Bool
  pub freed : Bool

-- What an operation does beside its writes: a ULT for a timer's pool, or the callback at once.
pub data Event : Type 0 where
  ult : (pool timer : ℕ) → Event
  called : (timer : ℕ) → Event

-- `struct margo_timer_list`, with the memory of the timers.
pub record TimerList (D : Dl) : Type 0 where
  pub links : D.Links
  pub timers : ℕ → Timer
  pub num_pending : ℕ
  pub destroy_requested : Bool

module _ (D : Dl) where
  -- The body of the loop of `__margo_timer_queue`, from `cur` on: walk back to the last timer that
  -- expires before the added one. The fuel is the number of timers in the list.
  unfoldable pub walk_back : (fuel : ℕ) → (ℕ → Timer) → D.Links → (cur timer : ℕ) → D.Links
  walk_back zero timers l cur timer = l
  walk_back (suc fuel) timers l cur timer =
      let back = D.prev l cur in
      let rest = walk_back fuel timers l back timer in
      if ltb (timers back).expiration (timers timer).expiration
      then D.append_elem l back timer
      else if back == D.head l
      then l
      else rest

  -- `__margo_timer_queue`
  unfoldable pub timer_queue : (fuel : ℕ) → TimerList D → ℕ → TimerList D
  timer_queue fuel s timer =
      let l = walk_back fuel s.timers s.links (D.head s.links) timer in
      if D.head s.links == null
      then record s { links = D.append s.links timer }
      else if (D.prev l timer == null) && (D.next l timer == null)
      then record s { links = D.prepend l timer }
      else record s { links = l }

  -- The body of the loops of `__margo_check_timers` and `__margo_timer_list_free`: take the head
  -- off the list, and issue its callback.
  unfoldable pub fire_head : TimerList D → Event × TimerList D
  fire_head s =
      let cur = D.head s.links in
      let t = s.timers cur in
      let links = D.clear (D.delete s.links cur) cur in
      if t.pool == null then (called cur, record s { links = links }) else (
        ult t.pool cur,
        record s {
          links = links;
          timers = update s.timers cur (record t { num_pending = add_u64 t.num_pending 1 });
          num_pending = add_u64 s.num_pending 1;
        },
      )

  -- `__margo_check_timers` at the time that `ABT_get_wtime` gives.
  unfoldable pub check_timers : (fuel now : ℕ) → TimerList D → List Event × TimerList D
  check_timers zero now s = ([], s)
  check_timers (suc fuel) now s =
      let (e, t) = fire_head s in
      let (es, r) = check_timers fuel now t in
      if D.head s.links == null
      then ([], s)
      else if ltb (s.timers (D.head s.links)).expiration now
      then (e ∷ es, r)
      else ([], s)

  -- `__margo_timer_list_free` up to its wait for the ULTs.
  unfoldable pub fire_all : (fuel : ℕ) → TimerList D → List Event × TimerList D
  fire_all zero s = ([], s)
  fire_all (suc fuel) s =
      let (e, t) = fire_head s in
      let (es, r) = fire_all fuel t in if D.head s.links == null then ([], s) else (e ∷ es, r)

  unfoldable pub timer_list_free : (fuel : ℕ) → TimerList D → List Event × TimerList D
  timer_list_free fuel s = fire_all fuel (record s { destroy_requested = true })

  -- `__margo_timer_get_next_expiration` at the time now: the difference of two times, as its sign
  -- (true below zero) and its size; none is the result -1.
  unfoldable pub next_expiration : ℕ → TimerList D → Option (Bool × ℕ)
  next_expiration now s =
      let at_head = (s.timers (D.head s.links)).expiration in
      if D.head s.links == null
      then none
      else if ltb at_head now
      then some (true, now - at_head)
      else some (false, at_head - now)

  -- `margo_timer_create_with_pool` at the address that `calloc` returned.
  unfoldable pub timer_create_with_pool : TimerList D → (pool timer : ℕ) → Option (TimerList D)
  timer_create_with_pool s pool timer =
      if s.destroy_requested || (timer == null)
      then none
      else some (record s {
        links = D.clear s.links timer;
        timers = update s.timers timer (record {
          pool = pool;
          expiration = 0;
          num_pending = 0;
          canceled = false;
          destroy_requested = false;
          freed = false;
        });
      })

  abbrev pub queued : TimerList D → ℕ → Bool
  queued s timer = not (D.prev s.links timer == null) || not (D.next s.links timer == null)

  -- `margo_timer_start`, where the timeout is added to the time that `ABT_get_wtime` gives; none
  -- is the result -1.
  unfoldable pub timer_start : (fuel now timeout : ℕ) → TimerList D → ℕ → Option (TimerList D)
  timer_start fuel now timeout s timer =
      let t = record (s.timers timer) { expiration = now + timeout } in
      if queued s timer || (s.timers timer).canceled || s.destroy_requested
      then none
      else some (timer_queue fuel (record s { timers = update s.timers timer t }) timer)

  -- `timer_ult`: whether the callback runs.
  unfoldable pub timer_ult : TimerList D → ℕ → Bool × TimerList D
  timer_ult s timer =
      let t = s.timers timer in
      let pending = sub_u64 t.num_pending 1 in
      let freed = t.freed || ((pending == 0) && t.destroy_requested) in
      (
        not t.canceled,
        record s {
          timers = update s.timers timer (record t { num_pending = pending; freed = freed });
          num_pending = sub_u64 s.num_pending 1;
        },
      )

  -- `margo_timer_cancel` and a round of the first loop of `margo_timer_cancel_many`, up to the
  -- wait for the ULTs.
  unfoldable pub cancel_begin : TimerList D → ℕ → TimerList D
  cancel_begin s timer =
      let links = if queued s timer then D.delete s.links timer else s.links in
      record s {
        links = D.clear links timer;
        timers = update s.timers timer (record (s.timers timer) { canceled = true });
      }

  -- From the wait on; none while it blocks.
  unfoldable pub cancel_end : TimerList D → ℕ → Option (TimerList D)
  cancel_end s timer =
      if (s.timers timer).num_pending == 0
      then some (record s {
        timers = update s.timers timer (record (s.timers timer) { canceled = false });
      })
      else none

  -- `margo_timer_destroy`
  unfoldable pub timer_destroy : TimerList D → ℕ → TimerList D
  timer_destroy s timer =
      let t = s.timers timer in
      let can_destroy = not (queued s timer) && (t.num_pending == 0) in
      record s {
        timers =
            update s.timers timer
              (record t { destroy_requested = not can_destroy; freed = t.freed || can_destroy });
      }
