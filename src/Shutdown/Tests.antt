-- ===== src/Shutdown/Tests.antt =====
-- src/margo-core.c: the shutdown handshake at concrete states.
use mochi_margo.Base.{◌+◌, ◌<◌, ◌≡◌, refl, none, arith, true}
use mochi_margo.Shutdown.Defs.{
  State, Reach, start, request, entered, fresh, finalize, finalize_requested, incr_pending,
}
use mochi_margo.Shutdown.Laws.{teardown_is_alone, request_is_not_lost}
use mochi_margo.Shutdown.Twice.{many_teardowns, all_reenter}

teardown_is_alone_example :
    ((entered fresh).running ≡ 0) × (incr_pending (entered fresh).word ≡ none)
unfolding finalize
teardown_is_alone_example = teardown_is_alone (entered fresh) (request start) (omega arith)

request_is_not_lost_example :
    0
    < (entered fresh).testing
      + (entered fresh).reentering
      + (entered fresh).asking
      + (entered fresh).teardowns
unfolding finalize finalize_requested
request_is_not_lost_example = request_is_not_lost (entered fresh) (request start) refl refl refl

many_teardowns_example :
    (s : State) × Reach s
    × (finalize_requested s.word ≡ true)
    × (s.running ≡ 0)
    × (s.reentering ≡ 2)
    × (s.asking ≡ 0)
    × (s.teardowns ≡ 0)
    × Reach (all_reenter 2 s)
    × ((all_reenter 2 s).reentering ≡ 0)
    × ((all_reenter 2 s).teardowns ≡ 2)
many_teardowns_example = many_teardowns 2 (omega arith) (omega arith)
