-- ===== src/Shutdown/Laws.antt =====
-- src/margo-core.c: what the shutdown handshake guarantees.
use mochi_margo.Base.{
  ℕ, suc, ◌+◌, ◌^◌, ◌<◌, ◌≡◌, ◌≢◌, ◌⊎◌, inl, inr, refl, true, false, if◌then◌else◌, none, some,
  arith,
}
use mochi_margo.Shutdown.Defs.{
  finalize_bit, finalize_requested, incr_pending, decr_pending, finalize, State, entered, asked,
  fresh, Reach, start, admit, complete, test, reenter, not_spawned, request, ask, call,
}

-- The count in the word is that of the operations that run; a teardown is under way only after a
-- request and with no operation; and after a request with no operation left, a thread is about to
-- find out or the teardown is under way.
pub record Inv (s : State) : Type 0 where
  pub few : s.running < 2 ^ 31
  pub word : s.word ≡ s.running + (if finalize_requested s.word then finalize_bit else 0)
  pub quiet : (s.teardowns ≡ 0) ⊎ ((s.running ≡ 0) × (finalize_requested s.word ≡ true))
  pub found :
      (finalize_requested s.word ≡ false)
      ⊎ (0 < s.running + s.testing + s.reentering + s.asking + s.teardowns + s.unspawned)
  pub careful : (s.reentering ≡ 0) ⊎ (finalize_requested s.word ≡ true)

start-Inv : Inv fresh
unfolding finalize_requested
start-Inv = record {
  few = omega arith;
  word = refl;
  quiet = inl refl;
  found = inl refl;
  careful = inl refl;
}

admit-Inv :
    (s : State) (w : ℕ)
    → Inv s
    → incr_pending s.word ≡ some w
    → suc s.running < 2 ^ 31
    → Inv (record s { word = w; running = suc s.running })
unfolding incr_pending finalize_requested
admit-Inv s w v e h = record {
  few = h;
  word = ground (arith, v.word, v.few, e, h);
  quiet = ground (arith, v.word, v.few, e, h, v.quiet);
  found = inr (omega arith);
  careful = ground (arith, v.word, v.few, e, h, v.careful);
}

complete-Inv :
    (s : State) (n : ℕ)
    → Inv s
    → s.running ≡ suc n
    → Inv (record s { word = decr_pending s.word; running = n; testing = suc s.testing })
unfolding decr_pending finalize_requested
complete-Inv s n v e = record {
  few = omega (arith, v.few, e);
  word = ground (arith, v.word, v.few, e);
  quiet = ground (arith, v.word, v.few, e, v.quiet);
  found = inr (omega arith);
  careful = ground (arith, v.word, v.few, e, v.careful);
}

test-Inv :
    (s : State) (n : ℕ)
    → Inv s
    → s.testing ≡ suc n
    → Inv (record s {
      testing = n;
      reentering = if finalize_requested s.word then suc s.reentering else s.reentering;
    })
unfolding finalize_requested
test-Inv s n v e = record {
  few = v.few;
  word = v.word;
  quiet = v.quiet;
  found = ground (arith, v.found, e);
  careful = ground (arith, v.careful);
}

entered-Inv : (s : State) → Inv s → Inv (entered s)
unfolding finalize finalize_requested
entered-Inv s v = record {
  few = v.few;
  word = ground (arith, v.word, v.few);
  quiet = ground (arith, v.word, v.few, v.quiet);
  found = ground (arith, v.word, v.few);
  careful = ground (arith, v.word, v.few, v.careful);
}

reenter-Inv :
    (s : State) (n : ℕ) → Inv s → s.reentering ≡ suc n → Inv (record (entered s) { reentering = n })
unfolding finalize finalize_requested
reenter-Inv s n v e = record {
  few = v.few;
  word = ground (arith, v.word, v.few);
  quiet = ground (arith, v.word, v.few, v.quiet);
  found = ground (arith, v.word, v.few);
  careful = ground (arith, v.word, v.few, v.careful);
}

not_spawned-Inv :
    (s : State) (n : ℕ)
    → Inv s
    → s.running ≡ suc n
    → Inv (record s { word = decr_pending s.word; running = n; unspawned = suc s.unspawned })
unfolding decr_pending finalize_requested
not_spawned-Inv s n v e = record {
  few = omega (arith, v.few, e);
  word = ground (arith, v.word, v.few, e);
  quiet = ground (arith, v.word, v.few, e, v.quiet);
  found = inr (omega arith);
  careful = ground (arith, v.word, v.few, e, v.careful);
}

asked-Inv : (s : State) → Inv s → Inv (asked s)
unfolding finalize finalize_requested
asked-Inv s v = record {
  few = v.few;
  word = ground (arith, v.word, v.few);
  quiet = ground (arith, v.word, v.few, v.quiet);
  found = inr (omega arith);
  careful = ground (arith, v.word, v.few, v.careful);
}

call-Inv : (s : State) (n : ℕ) → Inv s → s.asking ≡ suc n → Inv (record (entered s) { asking = n })
unfolding finalize finalize_requested
call-Inv s n v e = record {
  few = v.few;
  word = ground (arith, v.word, v.few);
  quiet = ground (arith, v.word, v.few, v.quiet);
  found = ground (arith, v.word, v.few);
  careful = ground (arith, v.word, v.few, v.careful);
}

Reach-Inv_after : {s : State} → Reach s → Inv s
Reach-Inv_after start = start-Inv
Reach-Inv_after (admit r e h) = admit-Inv _ _ (Reach-Inv_after r) e h
Reach-Inv_after (complete r e) = complete-Inv _ _ (Reach-Inv_after r) e
Reach-Inv_after (test r e) = test-Inv _ _ (Reach-Inv_after r) e
Reach-Inv_after (reenter r e) = reenter-Inv _ _ (Reach-Inv_after r) e
Reach-Inv_after (request r) = entered-Inv _ (Reach-Inv_after r)
Reach-Inv_after (not_spawned r e) = not_spawned-Inv _ _ (Reach-Inv_after r) e
Reach-Inv_after (ask r) = asked-Inv _ (Reach-Inv_after r)
Reach-Inv_after (call r e) = call-Inv _ _ (Reach-Inv_after r) e

-- Once a teardown is under way, in whatever order the threads went on, no operation runs, and
-- `__margo_internal_incr_pending` admits none.
pub teardown_is_alone :
    (s : State) → Reach s → s.teardowns ≢ 0 → (s.running ≡ 0) × (incr_pending s.word ≡ none)
unfolding incr_pending
teardown_is_alone s r h =
    let v = Reach-Inv_after r in elim v.quiet [ inl e ↦ absurd (h e) | inr (n, q) ↦ (n, rw q refl) ]

-- As long as every operation got its ULT, no request is lost: once one was made and no operation runs,
-- a thread that counted down has yet to test for it or to call `margo_finalize` again, a thread in
-- `margo_finalize_and_wait` has yet to call it, or a teardown is under way.
pub request_is_not_lost :
    (s : State)
    → Reach s
    → finalize_requested s.word ≡ true
    → s.running ≡ 0
    → s.unspawned ≡ 0
    → 0 < s.testing + s.reentering + s.asking + s.teardowns
request_is_not_lost s r q n all = let v = Reach-Inv_after r in ground (arith, v.found, q, n, all)

-- When the last operation that runs after a request ends since its ULT could not be created, the
-- request is lost: it stays in the word, no operation runs and none is admitted, and no thread will
-- test for the request or call `margo_finalize`, unless a thread was about to already.
unspawned_loses_request :
    (s : State)
    → Reach s
    → finalize_requested s.word ≡ true
    → s.running ≡ 1
    → (t : State) × Reach t
      × (finalize_requested t.word ≡ true)
      × (incr_pending t.word ≡ none)
      × (t.running ≡ 0)
      × (t.testing + t.reentering + t.asking + t.teardowns
          ≡ s.testing + s.reentering + s.asking + s.teardowns)
unfolding decr_pending finalize_requested incr_pending
unspawned_loses_request s r q one =
    let v = Reach-Inv_after r in
    (
      record s { word = decr_pending s.word; running = 0; unspawned = suc s.unspawned },
      not_spawned r one,
      ground (arith, v.word, q, one),
      ground (arith, v.word, q, one),
      refl,
      refl,
    )
