-- ===== src/BulkPool/SetCreate.antt =====
-- src/margo-bulk-pool.c: the pools that `margo_bulk_poolset_create` makes.
use mochi_margo.Base.{
  ℕ, zero, suc, ◌≤◌, ◌≡◌, refl, sym, ap, ◌∙◌, subst, inl, inr, ◌⊎◌, Bool, true, false, Option, none,
  some, List, ◌∷◌, arith, Bool-cases, Option-cases, ◌>>=◌, length, mul_u64, u64_max,
}
use mathlib.Core.Logic.{◌≢◌}
use mathlib.Core.Option.{some-injective}
use mochi_margo.Mercury.{HgReturn, is_success}
use mochi_margo.BulkPool.Defs.{Pool}
use mochi_margo.BulkPool.Create.{Calls, Created, pool_create}
use mochi_margo.BulkPool.CreateLaws.{NonNull, create-IsClean, IsFresh}
use mochi_margo.BulkPool.Stack.{IsValid}
use mochi_margo.BulkPool.Set.{Poolset, SetCreated, create_pools, poolset_create}
use mochi_margo.BulkPool.SetLaws.{Sized, All}

created_shape :
    (calls : Calls) (count size flag : ℕ) (r : Created) (p : Pool)
    → pool_create calls count size flag ≡ some r
    → r.pool ≡ some p
    → (p.size ≡ size) × (p.count ≡ count)
unfolding pool_create
created_shape calls count size flag r p e f = ground arith

created_memory :
    (calls : Calls) (count size flag : ℕ) (r : Created) (p : Pool)
    → pool_create calls count size flag ≡ some r
    → r.pool ≡ some p
    → (buf : ℕ) × (calls.memalign ≡ some buf)
unfolding pool_create
created_memory calls count size flag r p e f = elim (Option-cases calls.memalign) [
  | inr (buf, m) ↦ (buf, m)
  | inl m ↦ absurd (ground arith)
]

created_none :
    (calls : Calls) (count size flag : ℕ) (r : Created)
    → pool_create calls count size flag ≡ some r
    → r.pool ≡ none
    → is_success r.ret ≡ false
unfolding pool_create
created_none calls count size flag r e f = ground arith

-- A pool that `margo_bulk_pool_create` made.
pub record IsMade (nbufs : ℕ) (p : Pool) : Type 0 where
  pub valid : IsValid p
  pub full : p.num_free ≡ p.count
  pub count : p.count ≡ nbufs

created_IsMade :
    (calls : Calls) (count size flag : ℕ) (r : Created) (p : Pool)
    → count ≤ u64_max
    → NonNull calls.bulk_create
    → pool_create calls count size flag ≡ some r
    → r.pool ≡ some p
    → (p.size ≡ size) × IsMade count p
created_IsMade calls count size flag r p h nn e f =
    let (buf, m) = created_memory calls count size flag r p e f in
    let (r', e', clean) = create-IsClean calls count size flag buf m h nn in
    let same : r' ≡ r = some-injective _ _ (sym e' ∙ e) in
    let fresh : IsFresh (some p) = subst IsFresh (ap (λ c. c.pool) same ∙ f) clean.fresh in
    let shape = created_shape calls count size flag r p e f in
    (shape.0, record { valid = fresh.0; full = fresh.1; count = shape.1 })

-- What the loop has made after n rounds at most.
abbrev Good : (n nbufs size m : ℕ) → Option (HgReturn × List Pool) → Type 0
Good n nbufs size m none = Unit
Good n nbufs size m (some (ret, pools)) =
    Sized size m pools × All (IsMade nbufs) pools × ((is_success ret ≡ false) ⊎ (length pools ≡ n))

Good-cons :
    (n nbufs size m : ℕ) (p : Pool) (rest : Option (HgReturn × List Pool))
    → (p.size ≡ size) × IsMade nbufs p
    → Good n nbufs (mul_u64 size m) m rest
    → Good (suc n) nbufs size m (rest >>= λ t. some (t.0, p ∷ t.1))
Good-cons n nbufs size m p none made g = tt
Good-cons n nbufs size m p (some (ret, pools)) made (sized, all, inl failed) =
    ((made.0, sized), (made.1, all), inl failed)
Good-cons n nbufs size m p (some (ret, pools)) made (sized, all, inr long) =
    ((made.0, sized), (made.1, all), inr (ap suc long))

create_pools-Good :
    (calls : ℕ → Calls) (n i nbufs size m flag : ℕ)
    → nbufs ≤ u64_max
    → ((j : ℕ) → NonNull (calls j).bulk_create)
    → Good n nbufs size m (create_pools calls n i nbufs size m flag)
unfolding create_pools
create_pools-Good calls zero i nbufs size m flag h nn = (tt, tt, inr refl)
create_pools-Good calls (suc n) i nbufs size m flag h nn =
    let rest = create_pools-Good calls n (suc i) nbufs (mul_u64 size m) m flag h nn in
    elim (Option-cases (pool_create (calls i) nbufs size flag)) [
      | inl e ↦ rw e tt
      | inr (r, e) ↦ elim (Option-cases r.pool) [
        | inl f ↦ rw (e, f) (tt, tt, inl (created_none (calls i) nbufs size flag r e f))
        | inr (p, f) ↦ elim (Bool-cases (is_success r.ret)) [
          | inr b ↦ rw (e, f, b) (tt, tt, inl b)
          | inl b ↦
              rw (e, f, b)
                (Good-cons n nbufs size m p _
                  (created_IsMade (calls i) nbufs size flag r p h (nn i) e f) rest)
        ]
      ]
    ]

module _ (calloc_set calloc_pools : Bool) (calls : ℕ → Calls) (npools nbufs first_size m flag : ℕ)
    (r : SetCreated) (s : Poolset)
    (returned : poolset_create calloc_set calloc_pools calls npools nbufs first_size m flag
      ≡ some r)
    (given : r.poolset ≡ some s) where
  set_fields :
      (ret : HgReturn) (pools : List Pool)
      → create_pools calls npools 0 nbufs first_size m flag ≡ some (ret, pools)
      → (is_success ret ≡ true)
        × (record { pools = pools; nbufs = nbufs; first_size = first_size; size_multiple = m } ≡ s)
  unfolding poolset_create
  set_fields ret pools e = ground arith

  no_fault : create_pools calls npools 0 nbufs first_size m flag ≢ none
  unfolding poolset_create
  no_fault e = ground arith

  abbrev Made : Poolset → Type 0
  Made s =
      Sized s.first_size s.size_multiple s.pools
      × All (IsMade nbufs) s.pools
      × (length s.pools ≡ npools)

  set_made :
      (made : Option (HgReturn × List Pool))
      → create_pools calls npools 0 nbufs first_size m flag ≡ made
      → Good npools nbufs first_size m made
      → Made s
  set_made none e g = absurd (no_fault e)
  set_made (some (ret, pools)) e (sized, all, inl failed) =
      absurd (let f = (set_fields ret pools e).0 in ground arith)
  set_made (some (ret, pools)) e (sized, all, inr long) =
      subst Made (set_fields ret pools e).1 (sized, all, long)

  -- If `margo_bulk_poolset_create` gives a set, where bulk handles are never null when they are
  -- made, it has as many pools as were asked for, of the sizes that `get`, `tryget` and `release`
  -- compute anew, each of `nbufs` handles, well formed and with all of its handles free.
  pub poolset_create_makes :
      nbufs ≤ u64_max
      → ((j : ℕ) → NonNull (calls j).bulk_create)
      → Sized s.first_size s.size_multiple s.pools
        × All (IsMade nbufs) s.pools
        × (length s.pools ≡ npools)
  poolset_create_makes h nn =
      set_made _ refl (create_pools-Good calls npools 0 nbufs first_size m flag h nn)
