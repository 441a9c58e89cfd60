-- ===== src/Lifecycle/Defs.antt =====
-- src/margo-core.c: references to an instance, and the end of its finalization, in the parts that are
-- atomic operations or are done under the mutex, and as the calls that they make up. `cleanups` counts
-- the calls of margo_cleanup, which frees the instance.
use mochi_margo.Mercury.{HgReturn, success, invalid_arg, other_error}
use mochi_margo.Base.{
  ℕ, zero, suc, ◌+◌, ◌-◌, ◌%◌, ◌^◌, Bool, true, false, ◌&&◌, ◌==◌, if◌then◌else◌, Option, none,
  some,
}

pub record Instance : Type 0 where
  pub refcount : ℕ
  pub finalize_refcount : ℕ
  pub finalize_flag : Bool
  pub cleanups : ℕ

abbrev pub cleanup : Instance → Instance
cleanup mid = record mid { cleanups = mid.cleanups + 1 }

-- `do_cleanup`, and the clean-up behind it.
abbrev pub is_last : Instance → Bool
is_last mid = (mid.finalize_refcount == 0) && (mid.refcount == 0)

abbrev pub clean_when : Bool × Instance → Instance
clean_when (last, mid) = if last then cleanup mid else mid

abbrev pub clean_if_last : Instance → Instance
clean_if_last mid = clean_when (is_last mid, mid)

-- `--refcount`, atomic, on a word of 32 bits: what is left, and the instance.
abbrev pub less : ℕ → ℕ
less n = (n + (2 ^ 32 - 1)) % 2 ^ 32

abbrev pub drop : Instance → ℕ × Instance
drop mid = (less mid.refcount, record mid { refcount = less mid.refcount })

-- `margo_instance_ref_incr` and `margo_instance_ref_count`; none is a null instance.
unfoldable pub instance_ref_incr : Option Instance → HgReturn × Option Instance
instance_ref_incr none = (invalid_arg, none)
instance_ref_incr (some mid) =
    (success, some (record mid { refcount = (mid.refcount + 1) % 2 ^ 32 }))

unfoldable pub instance_ref_count : Option Instance → HgReturn × Option ℕ
instance_ref_count none = (invalid_arg, none)
instance_ref_count (some mid) = (success, some mid.refcount)

-- What `margo_instance_release` does with the count that its decrement left: its result, whether it
-- calls margo_finalize, and the instance.
unfoldable pub release_test : ℕ → Instance → HgReturn × Bool × Instance
release_test (suc n) mid = (success, false, mid)
release_test zero mid =
    if mid.finalize_flag
    then (success, false, cleanup mid)
    else (success, true, record mid { refcount = (mid.refcount + 1) % 2 ^ 32 })

-- `margo_instance_release`, from its test of the count on, without another thread in between.
unfoldable pub instance_release : Instance → HgReturn × Bool × Instance
unfolding release_test
instance_release mid =
    if mid.refcount == 0 then (other_error, false, mid) else release_test (drop mid).0 (drop mid).1

-- The part of `margo_finalize` under the mutex: `do_cleanup`, and the instance.
unfoldable pub finalize_flagged : Instance → Bool × Instance
finalize_flagged mid = (is_last mid, record mid { finalize_flag = true })

-- The first half of `margo_wait_for_finalize` and `margo_finalize_and_wait`.
unfoldable pub wait_enter : Instance → Instance
wait_enter mid = record mid { finalize_refcount = mid.finalize_refcount + 1 }

-- Their second half, when the flag is seen; none while it is not set.
unfoldable pub wait_leave : Instance → Option Instance
wait_leave mid =
    if mid.finalize_flag
    then some (clean_if_last (record mid { finalize_refcount = mid.finalize_refcount - 1 }))
    else none
