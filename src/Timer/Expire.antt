-- ===== src/Timer/Expire.antt =====
-- src/margo-timer.c: `__margo_check_timers` from its first round to its last.
use mochi_margo.Base.Nodes.{NotIn, Distinct}
use mochi_margo.Base.{
  ℕ, suc, ◌+◌, ◌^◌, ◌≤◌, ◌<◌, ◌≡◌, inl, inr, refl, ap, ◌∙◌, sym, subst, List, [], ◌∷◌, map, arith,
  null, length, ltb, Bool-cases,
}
use mochi_margo.Timer.Dl.{Dl, DlLaws, first_of}
use mochi_margo.Timer.Defs.{Timer, TimerList, Event, fire_head, check_timers}
use mochi_margo.Timer.Insert.{AllBelow, AllFrom, Sorted}
use mochi_margo.Timer.Walk.{IsSorted}
use mochi_margo.Timer.Check.{
  event_of, ults_of, ults, Fired, fire_event, fire_links, fire_pool, fire_expiration, fire_pending,
  fire_all_pending, check_none, check_later, check_fire, ults_of-event, ults-event,
}

module _ (e f : ℕ → Timer) (same : (x : ℕ) → (f x).expiration ≡ (e x).expiration) where
  AllFrom-same : (k : ℕ) (us : List ℕ) → AllFrom e k us → AllFrom f k us
  AllFrom-same k [] a = tt
  AllFrom-same k (u ∷ us) a = (omega (arith, same u, a.0), AllFrom-same k us a.1)

  AllBelow-same : (k : ℕ) (us : List ℕ) → AllBelow e k us → AllBelow f k us
  AllBelow-same k [] a = tt
  AllBelow-same k (u ∷ us) a = (omega (arith, same u, a.0), AllBelow-same k us a.1)

  Sorted-same : (us : List ℕ) → Sorted e us → Sorted f us
  Sorted-same [] s = tt
  Sorted-same (u ∷ us) s = (
    subst (λ k. AllFrom f k us) (sym (same u)) (AllFrom-same (e u).expiration us s.0),
    Sorted-same us s.1,
  )

event-same : (e f : ℕ → Timer) (u : ℕ) → (f u).pool ≡ (e u).pool → event_of f u ≡ event_of e u
event-same e f u same = rw same refl

events-same :
    (e f : ℕ → Timer)
    → ((x : ℕ) → (f x).pool ≡ (e x).pool)
    → (us : List ℕ) → map (event_of f) us ≡ map (event_of e) us
events-same e f same [] = refl
events-same e f same (u ∷ us) =
    ap (λ k. k ∷ map (event_of f) us) (event-same e f u (same u))
    ∙ ap (λ k. event_of e u ∷ k) (events-same e f same us)

AllFrom-later : (e : ℕ → Timer) (j k : ℕ) (us : List ℕ) → j ≤ k → AllFrom e k us → AllFrom e j us
AllFrom-later e j k [] h a = tt
AllFrom-later e j k (u ∷ us) h a = (omega (arith, h, a.0), AllFrom-later e j k us h a.1)

-- No count wraps around while so many ULTs are created.
abbrev pub Room : (D : Dl) → ℕ → TimerList D → Type 0
Room D n s = ((x : ℕ) → (s.timers x).num_pending + n < 2 ^ 64) × (s.num_pending + n < 2 ^ 64)

module _ (D : Dl) (L : DlLaws D) (now : ℕ) where
  pub nothing-Fired :
      (s : TimerList D) (us : List ℕ)
      → L.contents s.links ≡ us
      → AllFrom s.timers now us
      → Fired D L now s us ([], s)
  nothing-Fired s us w a = record {
    fired = [];
    left = us;
    was = refl;
    is = w;
    below = tt;
    from = a;
    events = refl;
    same_pool = λ x. refl;
    same_expiration = λ x. refl;
    pending = λ x. omega arith;
    all_pending = omega arith;
  }

  -- One timer more, ahead of those that the rounds after it fire.
  Fired-one :
      (s : TimerList D) (u : ℕ) (us : List ℕ) (r : List Event × TimerList D)
      → D.head s.links ≡ u
      → (s.timers u).expiration < now
      → suc (s.timers u).num_pending < 2 ^ 64
      → suc s.num_pending < 2 ^ 64
      → Fired D L now (fire_head D s).1 us r
      → Fired D L now s (u ∷ us) ((fire_head D s).0 ∷ r.0, r.1)
  Fired-one s u us r head h small all_small f = record {
    fired = u ∷ f.fired;
    left = f.left;
    was = ap (λ k. u ∷ k) f.was;
    is = f.is;
    below = (
      h,
      AllBelow-same (fire_head D s).1.timers s.timers (λ x. sym (fire_expiration D s u head x)) now
          f.fired f.below,
    );
    from =
        AllFrom-same (fire_head D s).1.timers s.timers (λ x. sym (fire_expiration D s u head x)) now
          f.left f.from;
    events =
        ap (λ k. k ∷ r.0) (fire_event D s u head)
        ∙ ap (λ k. event_of s.timers u ∷ k)
            (f.events
              ∙ events-same s.timers (fire_head D s).1.timers (fire_pool D s u head) f.fired);
    same_pool = λ x. f.same_pool x ∙ fire_pool D s u head x;
    same_expiration = λ x. f.same_expiration x ∙ fire_expiration D s u head x;
    pending = λ x. omega (
      arith,
      f.pending x,
      fire_pending D s u head x small,
      ap (λ k. ults_of x (k ∷ r.0)) (fire_event D s u head) ∙ ults_of-event s.timers x u r.0,
    );
    all_pending = omega (
      arith,
      f.all_pending,
      fire_all_pending D s u head all_small,
      ap (λ k. ults (k ∷ r.0)) (fire_event D s u head) ∙ ults-event s.timers u r.0,
    );
  }

  Room-left :
      (n : ℕ) (s : TimerList D) (u : ℕ)
      → D.head s.links ≡ u
      → Room D (suc n) s
      → Room D n (fire_head D s).1
  Room-left n s u head room = (
    λ x. ground (arith, fire_pending D s u head x (omega (arith, room.0 u)), room.0 x),
    ground (arith, fire_all_pending D s u head (omega (arith, room.1)), room.1),
  )

  -- The rest of the list once its head is fired.
  head_gone :
      (s : TimerList D) (u : ℕ) (us : List ℕ)
      → L.contents s.links ≡ u ∷ us
      → NotIn u us
      → D.head s.links ≡ u
      → L.contents (fire_head D s).1.links ≡ us
  head_gone s u us w o head =
      let gone = L.contents-delete_head s.links u us w in
      ap L.contents (fire_links D s u head)
      ∙ L.contents-clear (D.delete s.links u) u (subst (NotIn u) (sym gone) o)
      ∙ gone

  fires :
      (s : TimerList D) (us : List ℕ)
      → L.contents s.links ≡ us
      → Distinct us
      → NotIn null us
      → Sorted s.timers us
      → Room D (length us) s
      → Fired D L now s us (check_timers D (length us) now s)
  fires s [] w d n o room = rw (check_none D now s) (nothing-Fired s [] w tt)
  fires s (u ∷ us) w d n o room =
      let head = L.head_of s.links ∙ ap first_of w in
      let now_at : (s.timers (D.head s.links)).expiration ≡ (s.timers u).expiration =
        ap (λ k. (s.timers k).expiration) head in
      let rest =
        fires (fire_head D s).1 us (head_gone s u us w d.0 head) d.1 n.1
          (Sorted-same s.timers (fire_head D s).1.timers (fire_expiration D s u head) us o.1)
          (Room-left (length us) s u head room) in
      elim (Bool-cases (ltb (s.timers u).expiration now)) [
        | inl h ↦
            rw
              (check_fire D (length us) now s (λ e. n.0 (sym head ∙ e)) (ground (arith, h, now_at)))
              (Fired-one s u us (check_timers D (length us) now (fire_head D s).1) head
                (ground (arith, h)) (omega (arith, room.0 u)) (omega (arith, room.1)) rest)
        | inr h ↦ rw (check_later D (length us) now s (ground (arith, h, now_at))) (
            nothing-Fired s (u ∷ us) w (
              ground (arith, h),
              AllFrom-later s.timers now (s.timers u).expiration us (ground (arith, h)) o.0,
            ))
      ]

-- `__margo_check_timers` on a sorted list fires the timers that expire before now, all of them,
-- no others and in the order of the list: a timer with a pool gets a ULT there, which is counted
-- once in the timer and once in the list, and the callback of one without a pool is called. As
-- many rounds as the list has timers are enough. No count of ULTs may come near 2 ^ 64.
pub check_timers_fires :
    (D : Dl) (L : DlLaws D) (now : ℕ) (s : TimerList D)
    → IsSorted D L s
    → Room D (length (L.contents s.links)) s
    → Fired D L now s (L.contents s.links) (check_timers D (length (L.contents s.links)) now s)
check_timers_fires D L now s v room =
    fires D L now s (L.contents s.links) refl v.distinct v.nonnull v.sorted room
