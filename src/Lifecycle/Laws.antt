-- ===== src/Lifecycle/Laws.antt =====
-- src/margo-core.c: an instance is cleaned up once, after everyone has left; and how it can be cleaned
-- up twice.
use mochi_margo.Mercury.{HgReturn, success}
use mochi_margo.Base.{
  ℕ, zero, suc, ◌+◌, ◌-◌, ◌^◌, ◌≤◌, ◌<◌, ◌≡◌, ◌⊎◌, refl, ap, ◌∙◌, Bool, true, false, ◌&&◌, ◌==◌,
  if◌then◌else◌, Option, none, some, arith,
}
use mochi_margo.Lifecycle.Defs.{
  Instance, cleanup, is_last, clean_when, less, drop, instance_ref_incr, release_test,
  instance_release, finalize_flagged, wait_enter, wait_leave,
}

-- An instance, and whether `margo_finalize` has given up its reference.
pub record System : Type 0 where
  pub mid : Instance
  pub dropped : Bool

-- What the threads may do, in any order. Only one tears the instance down: it gives up its reference, and
-- later sets the flag under the mutex. A reference is added by a thread that has one, no thread starts
-- to wait on an instance that is gone, and a release does not run between the two parts of the teardown
-- and does not give back the last reference while a thread waits.
pub data Step (s : System) : System → Type 0 where
  gave_up : s.dropped ≡ false → Step s (record { mid = (drop s.mid).1; dropped = true })
  flagged :
      s.dropped ≡ true
      → s.mid.finalize_flag ≡ false
      → Step s (record s { mid = clean_when (finalize_flagged s.mid) })
  entered : s.mid.cleanups ≡ 0 → Step s (record s { mid = wait_enter s.mid })
  left :
      {t : Instance}
      → 1 ≤ s.mid.finalize_refcount
      → wait_leave s.mid ≡ some t
      → Step s (record s { mid = t })
  referenced :
      {t : Instance}
      → 1 ≤ s.mid.refcount
      → s.mid.refcount + 1 < 2 ^ 32
      → instance_ref_incr (some s.mid) ≡ (success, some t)
      → Step s (record s { mid = t })
  released :
      {t : Instance} {ret : HgReturn} {finalizes : Bool}
      → s.dropped ≡ s.mid.finalize_flag
      → (s.mid.finalize_refcount ≡ 0) ⊎ (2 ≤ s.mid.refcount)
      → instance_release s.mid ≡ (ret, finalizes, t)
      → Step s (record s { mid = t })

pub data Reach (s : System) : System → Type 0 where
  here : Reach s s
  next : {t u : System} → Reach s t → Step t u → Reach s u

-- Whether everyone has left.
abbrev pub is_over : Instance → Bool
is_over s = s.finalize_flag && ((s.finalize_refcount == 0) && (s.refcount == 0))

pub record Inv (s : System) : Type 0 where
  pub exact : s.mid.cleanups ≡ (if is_over s.mid then 1 else 0)
  pub held : s.dropped ≡ false → 1 ≤ s.mid.refcount
  pub small : s.mid.refcount < 2 ^ 32
  pub ordered : s.mid.finalize_flag ≡ true → s.dropped ≡ true

abbrev with_flag : Instance → System
with_flag s = record { mid = s; dropped = true }

-- Where a release runs between the two parts of the teardown: with two references, no thread that waits and the flag not
-- set, `margo_finalize` gives up its reference; another thread gives up the last one; `margo_finalize`
-- sets the flag, sees that it is the last and cleans the instance up; and the other thread, which
-- sees the flag, cleans it up again.
release_meets_finalize :
    (s : Instance)
    → s.finalize_flag ≡ false
    → s.refcount ≡ 2
    → s.finalize_refcount ≡ 0
    → ((drop (drop s).1).0 ≡ 0)
      × ((finalize_flagged (drop (drop s).1).1).0 ≡ true)
      × ((release_test (drop (drop s).1).0 (clean_when (finalize_flagged (drop (drop s).1).1))).0
          ≡ success)
      × ((release_test
            (drop (drop s).1).0
            (clean_when (finalize_flagged (drop (drop s).1).1))).2.cleanups
          ≡ s.cleanups + 2)
unfolding finalize_flagged release_test
release_meets_finalize s f two nobody =
    let none_left : less (less s.refcount) ≡ 0 = omega (arith, two) in
    let last : is_last (drop (drop s).1).1 ≡ true = ground (arith, none_left, nobody) in
    (none_left, last, rw (last, none_left) refl, rw (last, none_left) (omega arith))

abbrev pub on_leave : Option Instance → (Instance → Option Instance) → Option Instance
on_leave none rest = none
on_leave (some mid) rest = rest mid

-- The threads that wait leave one after the other.
unfoldable pub leave_all : ℕ → Instance → Option Instance
unfolding wait_leave
leave_all zero mid = some mid
leave_all (suc n) mid = on_leave (wait_leave mid) (leave_all n)

leave_counts :
    (n : ℕ) (t : Instance)
    → t.finalize_flag ≡ true
    → t.refcount ≡ 0
    → t.finalize_refcount ≡ suc n
    → (u : Instance) × (leave_all (suc n) t ≡ some u) × (u.cleanups ≡ t.cleanups + 1)
unfolding wait_leave leave_all
leave_counts zero t f z waiting =
    let nobody : (t.finalize_refcount - 1 == 0) ≡ true = ground (arith, waiting) in
    let free : (t.refcount == 0) ≡ true = ground (arith, z) in
    (
      cleanup (record t { finalize_refcount = t.finalize_refcount - 1 }),
      rw (f, nobody, free) refl,
      refl,
    )
leave_counts (suc n) t f z waiting =
    let more : (t.finalize_refcount - 1 == 0) ≡ false = ground (arith, waiting) in
    let s : Instance = record t { finalize_refcount = t.finalize_refcount - 1 } in
    let (u, all, once) = leave_counts n s f z (omega (arith, waiting)) in
    let step : wait_leave t ≡ some s = simp (f, more) refl in
    (u, ap (λ o. on_leave o (leave_all (suc n))) step ∙ all, once)

-- The last reference that is given back while threads still wait cleans the instance up at once, and
-- the last of those threads cleans it up again.
pub release_then_leave :
    (s : Instance) (n : ℕ)
    → s.finalize_flag ≡ true
    → s.refcount ≡ 1
    → s.finalize_refcount ≡ suc n
    → (t : Instance) × (instance_release s ≡ (success, false, t))
      × (t.finalize_refcount ≡ suc n)
      × (t.cleanups ≡ s.cleanups + 1)
      × ((u : Instance) × (leave_all (suc n) t ≡ some u) × (u.cleanups ≡ s.cleanups + 2))
unfolding instance_release release_test leave_all
release_then_leave s n f one waiting =
    let t : Instance = record s { refcount = 0; cleanups = s.cleanups + 1 } in
    let (u, all, twice) = leave_counts n t f refl waiting in
    (t, rw (one, f) refl, waiting, refl, (u, all, omega (arith, twice)))
