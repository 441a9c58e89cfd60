-- ===== src/BulkPool/CreateLaws.antt =====
-- src/margo-bulk-pool.c: what `margo_bulk_pool_create` builds, and what it gives back on failure.
use mathlib.Core.List.{append-nil}
use mochi_margo.Base.{
  ℕ, zero, suc, ◌+◌, ◌*◌, add_u64, ◌/◌, ◌%◌, ◌^◌, ◌≤◌, ◌<◌, ◌≡◌, ◌≢◌, refl, ap, ◌∙◌, inl, inr, Bool,
  true, false, ◌&&◌, not, Option, none, some, List, [], ◌∷◌, ◌++◌, arith, length, u64_max, null,
  ltb, ◌==◌, if◌then◌else◌, Bool-cases,
}
use mochi_margo.Mercury.{HgReturn, nomem_error, other_error, is_success}
use mochi_margo.BulkPool.Defs.{Pool}
use mochi_margo.BulkPool.Create.{
  Calls, Created, array, null_array, overflows, free_created, fail, slice, create_bulks,
  finish_create, pool_create,
}
use mochi_margo.BulkPool.Stack.{IsValid}

div-lt→lt-mul : (m size count : ℕ) → 0 < count → m / count < size → m < size * count
div-lt→lt-mul m size count h l = grind arith

div-ge→mul-le : (m size count : ℕ) → 0 < count → size ≤ m / count → size * count ≤ m
div-ge→mul-le m size count h l = grind arith

ltb-div : (m size count : ℕ) → 0 < count → ltb (m / count) size ≡ ltb m (size * count)
ltb-div m size count h = ground (arith, div-lt→lt-mul m size count h, div-ge→mul-le m size count h)

-- The guard of `margo_bulk_pool_create` rejects a count and a size exactly if their product does
-- not fit a `size_t`.
pub overflows_iff : (count size : ℕ) → overflows count size ≡ ltb u64_max (size * count)
unfolding overflows
overflows_iff zero size = ground arith
overflows_iff (suc count) size =
    let some_count : (suc count == 0) ≡ false = ground arith in
    rw some_count (ltb-div u64_max size (suc count) (omega arith))

slice_sum : (buf t : ℕ) → buf + t ≤ u64_max → add_u64 buf (t % 2 ^ 64) ≡ buf + t
slice_sum buf t h = omega arith

slice_end : (count size i : ℕ) → i < count → i * size + size ≤ size * count
slice_end count size i h = grind arith

-- If the guard lets a size pass and the buffer that the allocation returned lies in the address
-- space, no slice wraps around, each lies inside the buffer, and they follow one another.
pub slice_inside :
    (buf count size i : ℕ)
    → overflows count size ≡ false
    → buf + size * count ≤ u64_max
    → i < count
    → (slice buf size i ≡ buf + i * size) × (slice buf size i + size ≤ buf + size * count)
slice_inside buf count size i g h l =
    let e = slice_end count size i l in
    let t : slice buf size i ≡ buf + i * size = slice_sum buf (i * size) (omega arith) in
    (t, omega arith)

abbrev pub NonNull : (ℕ → ℕ → ℕ → ℕ → HgReturn × ℕ) → Type 0
NonNull bulk_create =
    (i a s f : ℕ) → is_success (bulk_create i a s f).0 ≡ true → (bulk_create i a s f).1 ≢ null

module _ (bulk_create : ℕ → ℕ → ℕ → ℕ → HgReturn × ℕ) (buf size flag : ℕ) where
  -- The handles made before the first failure.
  unfoldable pub made : (n i : ℕ) → List ℕ
  made zero i = []
  made (suc n) i =
      let (ret, bulk) = bulk_create i (slice buf size i) size flag in
      let rest = made n (suc i) in if is_success ret then bulk ∷ rest else []

  create_bulks_frees :
      (n i : ℕ)
      → NonNull bulk_create
      → free_created n (create_bulks bulk_create buf size flag n i).1 ≡ made n i
  unfolding create_bulks made free_created
  create_bulks_frees zero i h = refl
  create_bulks_frees (suc n) i h =
      ground (arith, create_bulks_frees n (suc i) h, h i (slice buf size i) size flag)

  create_bulks_success :
      (n i : ℕ)
      → is_success (create_bulks bulk_create buf size flag n i).0 ≡ true
      → ((create_bulks bulk_create buf size flag n i).1 ≡ made n i) × (length (made n i) ≡ n)
  unfolding create_bulks made
  create_bulks_success zero i e = (refl, refl)
  create_bulks_success (suc n) i e = ground (arith, create_bulks_success n (suc i))

abbrev pub held : Option Pool → List ℕ
held none = []
held (some p) = p.bulks

abbrev pub is_none {ℓ} : {A : Type ℓ} → Option A → Bool
is_none none = true
is_none (some a) = false

-- A new pool is well formed and has all of its handles free.
abbrev pub IsFresh : Option Pool → Type 0
IsFresh none = Unit
IsFresh (some p) = IsValid p × (p.num_free ≡ p.count)

-- What a call returns, where it made the handles `all`.
pub record IsClean (all : List ℕ) (r : Created) : Type 0 where
  pub reported : is_none r.pool ≡ not (is_success r.ret)
  pub conserved : r.freed ++ held r.pool ≡ all
  pub fresh : IsFresh r.pool

fail-IsClean :
    (count : ℕ) (bulks all : List ℕ) (ret : HgReturn)
    → is_success ret ≡ false
    → free_created count bulks ≡ all
    → (r : Created) × (fail count (array bulks) ret ≡ some r) × IsClean all r
unfolding fail
fail-IsClean count bulks all ret e f = (
  record { ret = ret; pool = none; freed = free_created count bulks },
  refl,
  record { reported = rw e refl; conserved = append-nil _ ∙ f; fresh = tt },
)

finish-IsClean :
    (calls : Calls) (buf size count flag : ℕ) (ret : HgReturn) (bulks all : List ℕ)
    → count ≤ u64_max
    → free_created count bulks ≡ all
    → (is_success ret ≡ true → (bulks ≡ all) × (length all ≡ count))
    → (r : Created) × (finish_create calls buf size count flag (ret, bulks) ≡ some r)
      × IsClean all r
unfolding finish_create
finish-IsClean calls buf size count flag ret bulks all h f s = elim (Bool-cases (is_success ret)) [
  | inr e ↦ rw e (fail-IsClean count bulks all ret e f)
  | inl e ↦ elim (Bool-cases calls.mutex_create) [
    | inr m ↦ rw (e, m) (fail-IsClean count bulks all other_error refl f)
    | inl m ↦ elim (Bool-cases calls.cond_create) [
      | inr c ↦ rw (e, m, c) (fail-IsClean count bulks all other_error refl f)
      | inl c ↦
          rw (e, m, c)
            (
              _,
              refl,
              record {
                reported = refl;
                conserved = (s e).0;
                fresh = (
                  record { word = h; sized = ap length (s e).0 ∙ (s e).1; within = omega arith },
                  refl,
                );
              },
            )
    ]
  ]
]

-- The handles that a call makes, whatever comes of it.
unfoldable pub attempted : Calls → (count size flag : ℕ) → List ℕ
attempted calls count size flag =
    if overflows count size then [] else if not calls.malloc_pool then [] else elim calls.memalign [
      | none ↦ []
      | some buf ↦
          if not calls.calloc_bulks then [] else made calls.bulk_create buf size flag count 0
    ]

create-IsClean_at :
    (calls : Calls) (count size flag : ℕ) (memory : Option ℕ)
    → calls.memalign ≡ memory
    → memory ≢ none
    → count ≤ u64_max
    → NonNull calls.bulk_create
    → (r : Created) × (pool_create calls count size flag ≡ some r)
      × IsClean (attempted calls count size flag) r
unfolding pool_create attempted
create-IsClean_at calls count size flag none m n h nn = absurd (n refl)
create-IsClean_at calls count size flag (some buf) m n h nn =
    elim (Bool-cases (overflows count size)) [
      | inl o ↦
          rw (o, pool_create, attempted)
            (_, refl, record { reported = refl; conserved = refl; fresh = tt })
      | inr o ↦ elim (Bool-cases calls.malloc_pool) [
        | inr a ↦
            rw (o, a, pool_create, attempted)
              (_, refl, record { reported = refl; conserved = refl; fresh = tt })
        | inl a ↦ elim (Bool-cases calls.calloc_bulks) [
          | inr c ↦
              rw (o, a, m, c, pool_create, attempted)
                (_, refl, record { reported = refl; conserved = refl; fresh = tt })
          | inl c ↦
              rw (o, a, m, c, pool_create, attempted)
                (finish-IsClean calls buf size count flag _ _ _ h
                  (create_bulks_frees calls.bulk_create buf size flag count 0 nn)
                  (create_bulks_success calls.bulk_create buf size flag count 0))
        ]
      ]
    ]

-- `margo_bulk_pool_create`, if its aligned allocation succeeds and bulk handles are never null when
-- they are made: it returns; it gives a pool exactly if it reports success; each handle that it
-- made is in that pool or freed, in the order made; and the pool is well formed with all of its
-- handles free.
pub create-IsClean :
    (calls : Calls) (count size flag buf : ℕ)
    → calls.memalign ≡ some buf
    → count ≤ u64_max
    → NonNull calls.bulk_create
    → (r : Created) × (pool_create calls count size flag ≡ some r)
      × IsClean (attempted calls count size flag) r
create-IsClean calls count size flag buf m h nn =
    create-IsClean_at calls count size flag (some buf) m (λ e. cc) h nn

finish-some :
    (calls : Calls) (buf size count flag : ℕ) (ret : HgReturn) (bulks : List ℕ)
    → is_none (finish_create calls buf size count flag (ret, bulks)) ≡ false
unfolding finish_create fail
finish-some calls buf size count flag ret bulks = ground arith

past_allocation : (calls : Calls) (count size flag buf : ℕ) → Bool
past_allocation calls count size flag buf = is_none (
    if not calls.calloc_bulks
    then fail count null_array nomem_error
    else finish_create calls buf size count flag
        (create_bulks calls.bulk_create buf size flag count 0))

past_allocation_lem :
    (calls : Calls) (count size flag buf : ℕ) → past_allocation calls count size flag buf ≡ false
unfolding past_allocation fail
past_allocation_lem calls count size flag buf =
    let (ret, bulks) = create_bulks calls.bulk_create buf size flag count 0 in
    ground (arith, finish-some calls buf size count flag ret bulks)

create_fault_at :
    (calls : Calls) (count size flag : ℕ) (memory : Option ℕ)
    → calls.memalign ≡ memory
    → is_none (pool_create calls count size flag)
      ≡ (not (overflows count size) && calls.malloc_pool && is_none memory)
unfolding pool_create past_allocation
create_fault_at calls count size flag none m = ground arith
create_fault_at calls count size flag (some buf) m =
    ground (arith, past_allocation_lem calls count size flag buf)

-- `margo_bulk_pool_create` reads the field `bulks` before it has a value exactly if it comes as far
-- as the aligned allocation and this fails.
pub create_fault_iff :
    (calls : Calls) (count size flag : ℕ)
    → is_none (pool_create calls count size flag)
      ≡ (not (overflows count size) && calls.malloc_pool && is_none calls.memalign)
create_fault_iff calls count size flag = create_fault_at calls count size flag calls.memalign refl
