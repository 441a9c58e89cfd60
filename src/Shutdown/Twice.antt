-- ===== src/Shutdown/Twice.antt =====
-- src/margo-core.c: how often `margo_finalize` can tear an instance down.
use mochi_margo.Base.{
  ℕ, zero, suc, ◌+◌, ◌^◌, ◌<◌, ◌≡◌, refl, subst, ap, ◌∙◌, true, if◌then◌else◌, some, arith,
}
use mochi_margo.Shutdown.Defs.{
  finalize_bit, finalize_requested, incr_pending, decr_pending, finalize, State, entered, Reach,
  start, admit, complete, test, reenter, request,
}

abbrev at : (word running testing reentering teardowns : ℕ) → State
at word running testing reentering teardowns = record {
  word = word;
  running = running;
  testing = testing;
  reentering = reentering;
  asking = 0;
  teardowns = teardowns;
  unspawned = 0;
}

incr_one : (n : ℕ) → n < 2 ^ 31 → incr_pending n ≡ some (suc n)
unfolding incr_pending finalize_requested
incr_one n h = ground (arith, h)

admitted : (k : ℕ) → k < 2 ^ 31 → Reach (at k k 0 0 0)
admitted zero h = start
admitted (suc k) h = admit (admitted k (omega (arith, h))) (incr_one k (omega (arith, h))) h

request_defers :
    (k : ℕ) → 0 < k → k < 2 ^ 31 → entered (at k k 0 0 0) ≡ at (finalize_bit + k) k 0 0 0
unfolding finalize finalize_requested
request_defers k l h = ground (arith, l, h)

decr_one : (n : ℕ) → n < 2 ^ 31 → decr_pending (finalize_bit + suc n) ≡ finalize_bit + n
unfolding decr_pending
decr_one n h = omega (arith, h)

test_finds : (n j : ℕ) → (if finalize_requested (finalize_bit + 0) then suc j else j) ≡ suc j
unfolding finalize_requested
test_finds n j = ground arith

tears_down :
    (n d : ℕ)
    → record (entered (at (finalize_bit + 0) 0 0 (suc n) d)) { reentering = n }
      ≡ at (finalize_bit + 0) 0 0 n (suc d)
unfolding finalize finalize_requested
tears_down n d = ground arith

module _ (k : ℕ) (l : 0 < k) (h : k < 2 ^ 31) where
  completed : (j n : ℕ) → n + j ≡ k → Reach (at (finalize_bit + n) n j 0 0)
  completed zero n e =
      subst (λ m. Reach (at (finalize_bit + m) m 0 0 0)) (omega (arith, e))
        (subst Reach (request_defers k l h) (request (admitted k h)))
  completed (suc j) n e =
      subst (λ w. Reach (at w n (suc j) 0 0)) (decr_one n (omega (arith, e, h)))
        (complete (completed j (suc n) (omega (arith, e))) refl)

  tested : (j n : ℕ) → n + j ≡ k → Reach (at (finalize_bit + 0) 0 n j 0)
  tested zero n e =
      subst (λ m. Reach (at (finalize_bit + 0) 0 m 0 0)) (omega (arith, e))
        (completed k 0 (omega arith))
  tested (suc j) n e =
      subst (λ m. Reach (at (finalize_bit + 0) 0 n m 0)) (test_finds n j)
        (test (tested j (suc n) (omega (arith, e))) refl)

-- The threads that counted down call `margo_finalize` one after the other.
abbrev pub called_again : State → ℕ → State
called_again s n = record (entered s) { reentering = n }

unfoldable pub all_reenter : ℕ → State → State
all_reenter zero s = s
all_reenter (suc n) s = all_reenter n (called_again s n)

all_reenter-Reach : (n : ℕ) (s : State) → Reach s → s.reentering ≡ n → Reach (all_reenter n s)
unfolding all_reenter
all_reenter-Reach zero s r e = r
all_reenter-Reach (suc n) s r e = all_reenter-Reach n (called_again s n) (reenter r e) refl

all_tear_down :
    (n d : ℕ) → all_reenter n (at (finalize_bit + 0) 0 0 n d) ≡ at (finalize_bit + 0) 0 0 0 (n + d)
unfolding all_reenter
all_tear_down zero d = ap (at (finalize_bit + 0) 0 0 0) (omega arith)
all_tear_down (suc n) d =
    ap (all_reenter n) (tears_down n d)
    ∙ all_tear_down n (suc d)
    ∙ ap (at (finalize_bit + 0) 0 0 0) (omega arith)

-- For every k above 0 and below 2 ^ 31 the threads can reach a state in which finalization is
-- requested, no operation runs, no teardown is under way, and k threads that counted their operations
-- down and found the request are about to call `margo_finalize`, with no thread of
-- `margo_finalize_and_wait` among them; and from there their k calls, one after the other, all go on to
-- tear the instance down.
pub many_teardowns :
    (k : ℕ)
    → 0 < k
    → k < 2 ^ 31
    → (s : State) × Reach s
      × (finalize_requested s.word ≡ true)
      × (s.running ≡ 0)
      × (s.reentering ≡ k)
      × (s.asking ≡ 0)
      × (s.teardowns ≡ 0)
      × Reach (all_reenter k s)
      × ((all_reenter k s).reentering ≡ 0)
      × ((all_reenter k s).teardowns ≡ k)
unfolding finalize_requested
many_teardowns k l h =
    let s = at (finalize_bit + 0) 0 0 k 0 in
    let r = tested k l h k 0 (omega arith) in
    let e = all_tear_down k 0 in
    (
      s,
      r,
      ground arith,
      refl,
      refl,
      refl,
      refl,
      all_reenter-Reach k s r refl,
      ap (λ t. t.reentering) e,
      ap (λ t. t.teardowns) e ∙ omega arith,
    )
