-- ===== src/Shutdown/Defs.antt =====
-- src/margo-core.c: the shutdown handshake. The word of 32 bits holds the request to finalize in its
-- top bit and the number of pending operations below; the bit operations are written as sums.
use mochi_margo.Base.{
  ℕ, suc, ◌+◌, ◌-◌, ◌%◌, ◌^◌, ◌<◌, ◌≡◌, Bool, leb, ◌==◌, if◌then◌else◌, Option, none, some,
}

-- `MARGO_FINALIZE_BIT`
abbrev pub finalize_bit : ℕ
finalize_bit = 2 ^ 31

-- `shutdown_state & MARGO_PENDING_MASK`
abbrev pub pending : ℕ → ℕ
pending w = w % 2 ^ 31

-- `__margo_internal_finalize_requested`
unfoldable pub finalize_requested : ℕ → Bool
finalize_requested w = leb finalize_bit w

-- `__margo_internal_incr_pending`; none where it refuses. The exchange that succeeds is the one
-- that counts.
unfoldable pub incr_pending : ℕ → Option ℕ
unfolding finalize_requested
incr_pending w = if finalize_requested w then none else some ((w + 1) % 2 ^ 32)

-- `__margo_internal_decr_pending`
unfoldable pub decr_pending : ℕ → ℕ
decr_pending w = (w + 2 ^ 32 - 1) % 2 ^ 32

-- The fetch_or at the head of `margo_finalize`: whether it goes on with the teardown, and the word.
unfoldable pub finalize : ℕ → Bool × ℕ
unfolding finalize_requested
finalize w = (pending w == 0, if finalize_requested w then w else w + finalize_bit)

-- The word, and the threads by what they do next: those in an operation, those that have counted
-- down and test for a request, those that call `margo_finalize` again, those in
-- `margo_finalize_and_wait` that are about to call it, and those that tear down the instance or have
-- done so. `unspawned` counts the operations that ended since their ULT could not be created.
pub record State : Type 0 where
  pub word : ℕ
  pub running : ℕ
  pub testing : ℕ
  pub reentering : ℕ
  pub asking : ℕ
  pub teardowns : ℕ
  pub unspawned : ℕ

-- `margo_finalize` up to its early return.
abbrev pub entered : State → State
entered s = record s {
  word = (finalize s.word).1;
  teardowns = if (finalize s.word).0 then suc s.teardowns else s.teardowns;
}

-- The fetch_or of `margo_finalize_and_wait`, in front of its call of `margo_finalize`.
abbrev pub asked : State → State
asked s = record s { word = (finalize s.word).1; asking = suc s.asking }

-- The end of an RPC handler whose ULT cannot be created, in src/include/margo.h.
abbrev pub spawn_failed : State → ℕ → State
spawn_failed s n = record s { word = decr_pending s.word; running = n; unspawned = suc s.unspawned }

abbrev pub fresh : State
fresh = record {
  word = 0;
  running = 0;
  testing = 0;
  reentering = 0;
  asking = 0;
  teardowns = 0;
  unspawned = 0;
}

-- The steps of the threads in any order: an operation starts; one ends, as in
-- `__margo_internal_post_wrapper_hooks`, with its count, its test and its call; one ends since its ULT
-- could not be created, with its count alone; a user calls `margo_finalize` or
-- `margo_finalize_and_wait`. Fewer than 2 ^ 31 operations run at a time.
pub data Reach : State → Type 0 where
  start : Reach fresh
  admit :
      {s : State} {w : ℕ}
      → Reach s
      → incr_pending s.word ≡ some w
      → suc s.running < 2 ^ 31
      → Reach (record s { word = w; running = suc s.running })
  complete :
      {s : State} {n : ℕ}
      → Reach s
      → s.running ≡ suc n
      → Reach (record s { word = decr_pending s.word; running = n; testing = suc s.testing })
  test :
      {s : State} {n : ℕ}
      → Reach s
      → s.testing ≡ suc n
      → Reach (record s {
        testing = n;
        reentering = if finalize_requested s.word then suc s.reentering else s.reentering;
      })
  reenter :
      {s : State} {n : ℕ}
      → Reach s
      → s.reentering ≡ suc n
      → Reach (record (entered s) { reentering = n })
  not_spawned : {s : State} {n : ℕ} → Reach s → s.running ≡ suc n → Reach (spawn_failed s n)
  request : {s : State} → Reach s → Reach (entered s)
  ask : {s : State} → Reach s → Reach (asked s)
  call :
      {s : State} {n : ℕ} → Reach s → s.asking ≡ suc n → Reach (record (entered s) { asking = n })
