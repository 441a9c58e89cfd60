-- ===== src/Timer/Destroy.antt =====
-- src/margo-timer.c: what becomes of a timer that `margo_timer_destroy` finds in the list.
use mochi_margo.Base.{ℕ, ◌≡◌, ◌≢◌, false, not, arith, null, ◌==◌, if◌then◌else◌}
use mochi_margo.Timer.Dl.{Dl}
use mochi_margo.Timer.Defs.{TimerList, fire_head, timer_destroy, timer_ult}

-- A timer that is destroyed at the head of the list, with no ULT pending, is not freed yet. Once
-- it has fired and its ULT has run, it is freed if it has a pool; if it has none, it is not.
pub destroyed_then_fired :
    (D : Dl) (s : TimerList D) (u : ℕ)
    → D.head s.links ≡ u
    → D.prev s.links u ≢ null
    → (s.timers u).num_pending ≡ 0
    → (s.timers u).freed ≡ false
    → (((timer_destroy D s u).timers u).freed ≡ false)
      × (((if (s.timers u).pool == null
              then (fire_head D (timer_destroy D s u)).1
              else (timer_ult D (fire_head D (timer_destroy D s u)).1 u).1).timers
            u).freed
          ≡ not ((s.timers u).pool == null))
unfolding timer_destroy fire_head timer_ult
destroyed_then_fired D s u head back pending alive =
    (ground (arith, back, alive), ground (arith, head, back, pending, alive))
