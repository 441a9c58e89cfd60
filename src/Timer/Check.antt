-- ===== src/Timer/Check.antt =====
-- src/margo-timer.c: `__margo_check_timers` fires the timers that have expired.
use mochi_margo.Base.{
  ℕ, suc, ◌+◌, ◌^◌, ◌≤◌, ◌<◌, ◌≡◌, ◌≢◌, refl, List, [], ◌∷◌, ◌++◌, map, arith, null, ◌==◌,
  if◌then◌else◌,
}
use mochi_margo.Timer.Dl.{Dl, DlLaws}
use mochi_margo.Timer.Defs.{Timer, TimerList, Event, ult, called, fire_head, check_timers}
use mochi_margo.Timer.Insert.{AllBelow, AllFrom}

-- What firing a timer does: a ULT in the timer's pool, or the callback if it has none.
abbrev pub event_of : (ℕ → Timer) → ℕ → Event
event_of e t = if (e t).pool == null then called t else ult (e t).pool t

-- How many ULTs of the timer x, and of any timer, there are among the events.
abbrev pub ults_of : ℕ → List Event → ℕ
ults_of x [] = 0
ults_of x (called t ∷ es) = ults_of x es
ults_of x (ult p t ∷ es) = (if t == x then 1 else 0) + ults_of x es

abbrev pub ults : List Event → ℕ
ults [] = 0
ults (called t ∷ es) = ults es
ults (ult p t ∷ es) = 1 + ults es

-- The timers that are fired are those of the list that expire before now, in its order; each of
-- them leaves the list, and the ULTs that it got are counted.
pub record Fired (D : Dl) (L : DlLaws D) (now : ℕ) (s : TimerList D) (us : List ℕ)
    (r : List Event × TimerList D) : Type 0 where
  pub fired : List ℕ
  pub left : List ℕ
  pub was : us ≡ fired ++ left
  pub is : L.contents r.1.links ≡ left
  pub below : AllBelow s.timers now fired
  pub from : AllFrom s.timers now left
  pub events : r.0 ≡ map (event_of s.timers) fired
  pub same_pool : (x : ℕ) → (r.1.timers x).pool ≡ (s.timers x).pool
  pub same_expiration : (x : ℕ) → (r.1.timers x).expiration ≡ (s.timers x).expiration
  pub pending : (x : ℕ) → (r.1.timers x).num_pending ≡ (s.timers x).num_pending + ults_of x r.0
  pub all_pending : r.1.num_pending ≡ s.num_pending + ults r.0

module _ (D : Dl) (s : TimerList D) (u : ℕ) (head : D.head s.links ≡ u) where
  pub fire_event : (fire_head D s).0 ≡ event_of s.timers u
  unfolding fire_head
  fire_event = ground (arith, head)

  pub fire_links : (fire_head D s).1.links ≡ D.clear (D.delete s.links u) u
  unfolding fire_head
  fire_links = ground (arith, head)

  pub fire_pool : (x : ℕ) → ((fire_head D s).1.timers x).pool ≡ (s.timers x).pool
  unfolding fire_head
  fire_pool x = ground (arith, head)

  pub fire_expiration : (x : ℕ) → ((fire_head D s).1.timers x).expiration ≡ (s.timers x).expiration
  unfolding fire_head
  fire_expiration x = ground (arith, head)

  pub fire_pending :
      (x : ℕ)
      → suc (s.timers u).num_pending < 2 ^ 64
      → ((fire_head D s).1.timers x).num_pending
        ≡ (s.timers x).num_pending
          + (if (s.timers u).pool == null then 0 else if u == x then 1 else 0)
  unfolding fire_head
  fire_pending x small = ground (arith, head, small)

  pub fire_all_pending :
      suc s.num_pending < 2 ^ 64
      → (fire_head D s).1.num_pending ≡ s.num_pending + (if (s.timers u).pool == null then 0 else 1)
  unfolding fire_head
  fire_all_pending small = ground (arith, head, small)

pub check_none : (D : Dl) (now : ℕ) (s : TimerList D) → check_timers D 0 now s ≡ ([], s)
unfolding check_timers
check_none D now s = refl

module _ (D : Dl) (n now : ℕ) (s : TimerList D) where
  pub check_empty : D.head s.links ≡ null → check_timers D (suc n) now s ≡ ([], s)
  unfolding check_timers
  check_empty e = rw e

  pub check_later :
      now ≤ (s.timers (D.head s.links)).expiration → check_timers D (suc n) now s ≡ ([], s)
  unfolding check_timers
  check_later h = ground (arith, h)

  pub check_fire :
      D.head s.links ≢ null
      → (s.timers (D.head s.links)).expiration < now
      → check_timers D (suc n) now s ≡ (
        (fire_head D s).0 ∷ (check_timers D n now (fire_head D s).1).0,
        (check_timers D n now (fire_head D s).1).1,
      )
  unfolding check_timers
  check_fire e h = ground (arith, e, h)

pub ults_of-event :
    (e : ℕ → Timer) (x u : ℕ) (es : List Event)
    → ults_of x (event_of e u ∷ es)
      ≡ (if (e u).pool == null then 0 else if u == x then 1 else 0) + ults_of x es
ults_of-event e x u es = ground arith

pub ults-event :
    (e : ℕ → Timer) (u : ℕ) (es : List Event)
    → ults (event_of e u ∷ es) ≡ (if (e u).pool == null then 0 else 1) + ults es
ults-event e u es = ground arith
