-- ===== src/BulkPool/Defs.antt =====
-- src/margo-bulk-pool.c: one pool of bulk handles and the calls that take from it and give back. A
-- handle is a number, 0 is HG_BULK_NULL. The lock and the condition variable show only in that a
-- `get` on an empty pool waits; `mid` is only passed on. Sizes and counts are 64-bit words.
use mochi_margo.Base.{
  ℕ, Bool, false, ◌||◌, not, Option, none, some, List, [], ltb, ◌==◌, if◌then◌else◌, ◌>>=◌, length,
  get_elem?, set, take, add_u64, sub_u64, mul_u64, null,
}

pub record Pool : Type 0 where
  pub buf : ℕ
  pub bulks : List ℕ
  pub count : ℕ
  pub size : ℕ
  pub num_free : ℕ
  pub flag : ℕ

-- `rejected` is a return of -1, `waits` a caller blocked on the condition variable with the pool
-- as it was, `fault` an access outside the array.
pub data Outcome (A : Type 0) : Type 0 where
  fault rejected waits : Outcome A
  done : A → Outcome A

abbrev or_fault : {A : Type 0} → Option A → Outcome A
or_fault none = fault
or_fault (some a) = done a

-- `margo_bp_get`: `bulks[count - num_free--]`
unfoldable pub bp_get : Pool → Option (ℕ × Pool)
bp_get p = do
  bulk ← get_elem? p.bulks (sub_u64 p.count p.num_free)
  some (bulk, record p { num_free = sub_u64 p.num_free 1 })

-- `margo_bp_tryget`
unfoldable pub bp_tryget : Pool → Option (ℕ × Pool)
unfolding bp_get
bp_tryget p = if p.num_free == 0 then some (null, p) else bp_get p

-- `margo_bulk_pool_get`; `none` is MARGO_BULK_POOL_NULL.
unfoldable pub pool_get : Option Pool → Outcome (ℕ × Pool)
unfolding bp_get
pool_get none = rejected
pool_get (some p) = if p.num_free == 0 then waits else or_fault (bp_get p)

-- `margo_bulk_pool_tryget`
unfoldable pub pool_tryget : Option Pool → Outcome (ℕ × Pool)
unfolding bp_tryget
pool_tryget none = rejected
pool_tryget (some p) = or_fault (bp_tryget p)

-- `margo_bp_release`: `bulks[count - ++num_free] = bulk`
unfoldable pub bp_release : Pool → ℕ → Option Pool
bp_release p bulk =
    let free = add_u64 p.num_free 1 in
    let index = sub_u64 p.count free in
    if ltb index (length p.bulks)
    then some (record p { num_free = free; bulks = set p.bulks index bulk })
    else none

-- What Mercury says of a handle: `margo_bulk_get_size`, and `margo_bulk_access` with the size and
-- the flag of the pool: the address and the size of the first segment, or an error.
pub record BulkInfo : Type 0 where
  pub get_size : ℕ → ℕ
  pub access : ℕ → ℕ → ℕ → Option (ℕ × ℕ)

-- The test on the memory of a handle that is given back.
unfoldable pub outside : Pool → ℕ × ℕ → Bool
outside p (buf_ptr, buf_size) =
    ltb buf_ptr p.buf || ltb (add_u64 p.buf (mul_u64 p.size p.count)) (add_u64 buf_ptr buf_size)

-- `margo_bulk_pool_release`
unfoldable pub pool_release : BulkInfo → Option Pool → ℕ → Outcome Pool
unfolding bp_release outside
pool_release info none bulk = rejected
pool_release info (some p) bulk =
    if bulk == null
    then rejected
    else if not (p.size == info.get_size bulk)
    then rejected
    else elim (info.access bulk p.size p.flag) [
      | none ↦ rejected
      | some segment ↦ if outside p segment then rejected else or_fault (bp_release p bulk)
    ]

-- `margo_bulk_pool_destroy`: whether it warns of handles in use, and the handles that it frees.
unfoldable pub pool_destroy : Option Pool → Bool × List ℕ
pool_destroy none = (false, [])
pool_destroy (some p) = (not (p.count == p.num_free), take p.count p.bulks)
