-- ===== src/BulkPool/Create.antt =====
-- src/margo-bulk-pool.c: `margo_bulk_pool_create`, with its clean-up on the way out.
use mochi_margo.Base.{
  ℕ, zero, suc, ◌/◌, Bool, ◌&&◌, not, Option, none, some, List, [], ◌∷◌, ltb, ◌==◌, if◌then◌else◌,
  replicate, u64_max, add_u64, mul_u64, null,
}
use mochi_margo.Mercury.{HgReturn, success, nomem_error, invalid_arg, other_error, is_success}
use mochi_margo.BulkPool.Defs.{Pool}

-- What the calls of `margo_bulk_pool_create` return: `malloc`, `posix_memalign`, `calloc`,
-- `margo_bulk_create` (its number, address, size and flag), `ABT_mutex_create`, `ABT_cond_create`.
pub record Calls : Type 0 where
  pub malloc_pool : Bool
  pub memalign : Option ℕ
  pub calloc_bulks : Bool
  pub bulk_create : ℕ → ℕ → ℕ → ℕ → HgReturn × ℕ
  pub mutex_create : Bool
  pub cond_create : Bool

-- `freed` are the handles given to `margo_bulk_free` on the way out.
pub record Created : Type 0 where
  pub ret : HgReturn
  pub pool : Option Pool
  pub freed : List ℕ

-- The field `bulks` of the struct that `malloc` returned: not set yet, a null pointer, an array.
pub data Field : Type 0 where
  unset null_array : Field
  array : List ℕ → Field

-- `count != 0 && size > SIZE_MAX / count`
unfoldable pub overflows : ℕ → ℕ → Bool
overflows count size = not (count == 0) && ltb (u64_max / count) size

-- The loop that frees up to the first null entry; the first argument is what is left of `count`.
unfoldable pub free_created : ℕ → List ℕ → List ℕ
free_created zero bulks = []
free_created (suc n) [] = []
free_created (suc n) (b ∷ bulks) = if b == null then [] else b ∷ free_created n bulks

-- The label `err`, where `p` is not null. To read a field that is not set is a fault.
unfoldable pub fail : ℕ → Field → HgReturn → Option Created
unfolding free_created
fail count unset ret = none
fail count null_array ret = some (record { ret = ret; pool = none; freed = [] })
fail count (array bulks) ret =
    some (record { ret = ret; pool = none; freed = free_created count bulks })

-- `bulk_buf`, the i-th slice of the buffer.
abbrev pub slice : ℕ → ℕ → ℕ → ℕ
slice buf size i = add_u64 buf (mul_u64 i size)

-- The loop over `margo_bulk_create`, from i on for n rounds, and the entries of the zeroed array
-- from i on when it stops.
unfoldable pub create_bulks :
    (ℕ → ℕ → ℕ → ℕ → HgReturn × ℕ) → (buf size flag n i : ℕ) → HgReturn × List ℕ
create_bulks bulk_create buf size flag zero i = (success, [])
create_bulks bulk_create buf size flag (suc n) i =
    let (ret, bulk) = bulk_create i (slice buf size i) size flag in
    let (last, bulks) = create_bulks bulk_create buf size flag n (suc i) in
    if is_success ret then (last, bulk ∷ bulks) else (ret, null ∷ replicate n null)

-- From the end of the loop on.
unfoldable pub finish_create :
    Calls → (buf size count flag : ℕ) → HgReturn × List ℕ → Option Created
unfolding fail
finish_create calls buf size count flag (ret, bulks) =
    if not (is_success ret)
    then fail count (array bulks) ret
    else if not calls.mutex_create
    then fail count (array bulks) other_error
    else if not calls.cond_create
    then fail count (array bulks) other_error
    else some (record {
      ret = success;
      pool = some (record {
        buf = buf;
        bulks = bulks;
        count = count;
        size = size;
        num_free = count;
        flag = flag;
      });
      freed = [];
    })

-- `margo_bulk_pool_create`
unfoldable pub pool_create : Calls → (count size flag : ℕ) → Option Created
unfolding overflows fail create_bulks finish_create
pool_create calls count size flag =
    if overflows count size
    then some (record { ret = invalid_arg; pool = none; freed = [] })
    else if not calls.malloc_pool
    then some (record { ret = nomem_error; pool = none; freed = [] })
    else elim calls.memalign [
      | none ↦ fail count unset nomem_error
      | some buf ↦
          if not calls.calloc_bulks
          then fail count null_array nomem_error
          else finish_create calls buf size count flag
              (create_bulks calls.bulk_create buf size flag count 0)
    ]
