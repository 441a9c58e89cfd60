-- ===== src/Timer/Tests.antt =====
-- src/margo-timer.c: the timers at concrete inputs, with lists in place of linked nodes.
use mochi_margo.Base.Nodes.{NotIn, Distinct, last_of}
use mochi_margo.Base.{
  ℕ, ◌*◌, ◌≡◌, ◌≢◌, refl, true, false, List, [], ◌∷◌, ◌++◌, arith, null, ◌==◌, if◌then◌else◌,
}
use mochi_margo.Timer.Dl.{Dl, DlLaws, first_of}
use mochi_margo.Timer.Defs.{
  Timer, TimerList, fire_head, check_timers, timer_queue, timer_destroy, timer_ult,
}
use mochi_margo.Timer.Insert.{Inserted}
use mochi_margo.Timer.Walk.{IsSorted}
use mochi_margo.Timer.Sort.{timer_queue_sorts}
use mochi_margo.Timer.Check.{Fired}
use mochi_margo.Timer.Expire.{check_timers_fires}
use mochi_margo.Timer.Destroy.{destroyed_then_fired}

abbrev prev_in : ℕ → List ℕ → ℕ → ℕ
prev_in q [] p = null
prev_in q (u ∷ us) p = if u == p then q else prev_in u us p

abbrev next_in : List ℕ → ℕ → ℕ
next_in [] p = null
next_in (u ∷ us) p = if u == p then first_of us else next_in us p

abbrev insert_after : List ℕ → ℕ → ℕ → List ℕ
insert_after [] c p = []
insert_after (u ∷ us) c p = if u == c then u ∷ p ∷ us else u ∷ insert_after us c p

abbrev remove : List ℕ → ℕ → List ℕ
remove [] p = []
remove (u ∷ us) p = if u == p then us else u ∷ remove us p

abbrev lists : Dl
lists = record {
  Links = List ℕ;
  head = first_of;
  prev = λ l p. prev_in (last_of l) l p;
  next = next_in;
  append = λ l p. l ++ p ∷ [];
  prepend = λ l p. p ∷ l;
  append_elem = insert_after;
  delete = remove;
  clear = λ l p. l;
}

apart_at : (x p c : ℕ) (us ws : List ℕ) → NotIn x (us ++ c ∷ p ∷ ws) → (c ≢ x) × (p ≢ x)
apart_at x p c [] ws o = (o.0, o.1.0)
apart_at x p c (u ∷ us) ws o = apart_at x p c us ws o.1

first_apart : (x c : ℕ) (us ws : List ℕ) → NotIn x (us ++ c ∷ ws) → c ≢ x
first_apart x c [] ws o = o.0
first_apart x c (u ∷ us) ws o = first_apart x c us ws o.1

prev_in-after :
    (us : List ℕ) (q c p : ℕ) (ws : List ℕ)
    → Distinct (us ++ c ∷ p ∷ ws)
    → prev_in q (us ++ c ∷ p ∷ ws) p ≡ c
prev_in-after [] q c p ws d = let o = d.0.0 in ground (arith, o)
prev_in-after (u ∷ us) q c p ws d =
    let o = (apart_at u p c us ws d.0).1 in
    let rest = prev_in-after us u c p ws d.1 in ground (arith, o, rest)

insert_after-elem :
    (us : List ℕ) (c p : ℕ) (ws : List ℕ)
    → Distinct (us ++ c ∷ ws)
    → insert_after (us ++ c ∷ ws) c p ≡ us ++ c ∷ p ∷ ws
insert_after-elem [] c p ws d = ground arith
insert_after-elem (u ∷ us) c p ws d =
    let o = first_apart u c us ws d.0 in
    let rest = insert_after-elem us c p ws d.1 in ground (arith, o, rest)

abbrev lists_laws : DlLaws lists
lists_laws = record {
  contents = λ l. l;
  head_of = λ l. refl;
  prev_first = λ l p us e. rw e (ground arith);
  prev_after = λ l us c p ws e d. rw e (prev_in-after us (last_of (us ++ c ∷ p ∷ ws)) c p ws d);
  contents-append = λ l p o. refl;
  contents-prepend = λ l p o. refl;
  contents-append_elem = λ l us c p ws e o d. rw e (insert_after-elem us c p ws d);
  contents-delete_head = λ l p ws e. rw e (ground arith);
  contents-clear = λ l p o. refl;
}

-- Timers 1 and 2 are started, 3 is not; 2 has no pool.
abbrev timers : ℕ → Timer
timers t = record {
  pool = if t == 2 then null else 9;
  expiration = if t == 3 then 15 else 10 * t;
  num_pending = 0;
  canceled = false;
  destroy_requested = false;
  freed = false;
}

abbrev started : TimerList lists
started = record { links = 1 ∷ 2 ∷ []; timers = timers; num_pending = 0; destroy_requested = false }

started-IsSorted : IsSorted lists lists_laws started
started-IsSorted = record {
  distinct = ((omega arith, tt), (tt, tt));
  nonnull = (omega arith, (omega arith, tt));
  sorted = ((omega arith, tt), (tt, tt));
}

timer_queue_sorts_example : Inserted timers 3 (1 ∷ 2 ∷ []) (timer_queue lists 2 started 3).links
timer_queue_sorts_example = timer_queue_sorts lists lists_laws started 3 started-IsSorted (record {
  out = (omega arith, (omega arith, tt));
  some_timer = omega arith;
  no_prev = refl;
  no_next = refl;
})

check_timers_fires_example :
    Fired lists lists_laws 15 started (1 ∷ 2 ∷ []) (check_timers lists 2 15 started)
check_timers_fires_example =
    check_timers_fires lists lists_laws 15 started started-IsSorted (λ x. omega arith, omega arith)

destroyed_then_fired_example :
    (((timer_destroy lists started 1).timers 1).freed ≡ false)
    × (((timer_ult lists (fire_head lists (timer_destroy lists started 1)).1 1).1.timers 1).freed
        ≡ true)
destroyed_then_fired_example = destroyed_then_fired lists started 1 refl (omega arith) refl refl
