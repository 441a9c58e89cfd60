-- ===== src/Rpcs/Laws.antt =====
-- src/margo-core.c: an RPC that is registered and deregistered, and the references to its pool.
use Prim.Native.String.{String}
use mochi_margo.Mercury.{success, is_success}
use mochi_margo.Base.{
  ℕ, ◌+◌, ◌-◌, ◌%◌, ◌^◌, ◌<◌, ◌≡◌, ◌≢◌, refl, ap, ◌∙◌, true, false, Bool-cases, ◌==◌, if◌then◌else◌,
  null, Option, none, some, List, [], ◌∷◌, inl, inr, Option-cases, arith, get_elem?,
}
use mochi_margo.Registry.Defs.{modify_at}
use mochi_margo.Registry.Totals.{total, total-modify_at}
use mochi_margo.AbtConfig.Entries.{PoolEntry, find_pool_by_handle}
use mochi_margo.AbtConfig.Counts.{found, find-modify, one_if}
use mochi_margo.Config.Defs.{pool_slot, one_ref_more}
use mochi_margo.Config.Laws.{modify_at-modify_at}
use mochi_margo.Rpcs.Defs.{
  RpcData, Registrar, Results, registered_data, without, unreferenced, reference, unreference,
  register_internal, note_back, provider_register_name, deregister,
}

-- Counting an RPC in and out of the references of a pool.
unreference-reference :
    (pools : List PoolEntry) (h : ℕ)
    → ((i : ℕ) (p : PoolEntry) → get_elem? pools i ≡ some p → p.refcount < 2 ^ 32)
    → unreference (reference pools h) h ≡ pools
unfolding reference unreference
unreference-reference pools h small = elim (Option-cases (find_pool_by_handle pools h)) [
  | inl n ↦ rw (n, n) refl
  | inr (i, f) ↦
      let (p, at, same) = found pools h i f in
      let again : find_pool_by_handle (modify_at i (one_ref_more pool_slot) pools) h ≡ some i =
        find-modify (one_ref_more pool_slot) (λ p. refl) pools i h ∙ f in
      let back : (((p.refcount + 1) % 2 ^ 32) + (2 ^ 32 - 1)) % 2 ^ 32 ≡ p.refcount =
        omega (arith, small i p at) in
      rw (f, again)
        (modify_at-modify_at (one_ref_more pool_slot) unreferenced pools i p at
          (ap (λ c. record p { refcount = c }) back))
]

without-absent : (ds : List RpcData) (id : ℕ) → registered_data ds id ≡ none → without ds id ≡ ds
unfolding registered_data without
without-absent [] id e = refl
without-absent (d ∷ ds) id e = elim (Bool-cases (d.id == id)) [
  | inl y ↦ absurd (ground (arith, e, y))
  | inr n ↦ rw n (ap (λ l. d ∷ l) (without-absent ds id (ground (arith, e, n))))
]

-- The data of a new RPC, and the instance with it.
abbrev fresh_data : Option String → (id pool : ℕ) → RpcData
fresh_data name id pool = record {
  id = id;
  pool = pool;
  rpc_name = name;
  user_data = null;
  user_free_callback = null;
}

abbrev with_rpc : Registrar → Option String → (id pool : ℕ) → Registrar
with_rpc mid name id pool = record mid {
  rpc_data = fresh_data name id pool ∷ mid.rpc_data;
  pools = reference mid.pools pool;
}

abbrev pub or_default : Registrar → ℕ → ℕ
or_default mid pool = if pool == null then mid.rpc_pool else pool

registered :
    (results : Results) (mid : Registrar) (name : Option String) (id pool : ℕ)
    → registered_data mid.rpc_data id ≡ none
    → results.register ≡ success
    → results.register_data ≡ success
    → results.memory ≡ true
    → register_internal results mid name id pool ≡ (id, with_rpc mid name id (or_default mid pool))
unfolding register_internal
registered results mid name id pool new r d m = rw (r, new, m, d) refl

deregistered :
    (results : Results) (mid : Registrar) (name : Option String) (id pool : ℕ)
    → registered_data mid.rpc_data id ≡ none
    → results.deregister ≡ success
    → ((i : ℕ) (p : PoolEntry) → get_elem? mid.pools i ≡ some p → p.refcount < 2 ^ 32)
    → deregister results (with_rpc mid name id pool) id ≡ (success, mid)
unfolding deregister registered_data without
deregistered results mid name id pool new u small =
    let own : (id == id) ≡ true = ground arith in
    rw (u, own, own, without-absent mid.rpc_data id new, unreference-reference mid.pools pool small)
      refl

deregister-register :
    (results : Results) (mid : Registrar) (name : Option String) (id pool : ℕ)
    → registered_data mid.rpc_data id ≡ none
    → results.register ≡ success
    → results.register_data ≡ success
    → results.deregister ≡ success
    → results.memory ≡ true
    → ((i : ℕ) (p : PoolEntry) → get_elem? mid.pools i ≡ some p → p.refcount < 2 ^ 32)
    → ((register_internal results mid name id pool).0 ≡ id)
      × (deregister results (register_internal results mid name id pool).1 id ≡ (success, mid))
deregister-register results mid name id pool new r d u m small =
    let made = registered results mid name id pool new r d m in
    (
      ap (λ p. p.0) made,
      ap (λ p. deregister results p.1 id) made
          ∙ deregistered results mid name id (or_default mid pool) new u small,
    )

-- The note of a registration, which stays.
abbrev pub with_note : Registrar → ℕ → Registrar
with_note mid id = record mid {
  registered_rpcs = id ∷ mid.registered_rpcs;
  num_registered_rpcs = (mid.num_registered_rpcs + 1) % 2 ^ 16;
}

-- `margo_provider_register_name` registers an RPC whose id is new and not 0 under that id, if the calls
-- of Mercury and the allocations succeed; when it is then deregistered, the references of the pools, the
-- data and the freed addresses are as before, but the list of registered RPCs keeps its new entry, and
-- their number, a word of 16 bits, stays one more.
pub deregister-provider_register_name :
    (results : Results) (mid : Registrar) (name : Option String) (id pool : ℕ)
    → id ≢ 0
    → registered_data mid.rpc_data id ≡ none
    → results.register ≡ success
    → results.register_data ≡ success
    → results.deregister ≡ success
    → results.memory ≡ true
    → ((i : ℕ) (p : PoolEntry) → get_elem? mid.pools i ≡ some p → p.refcount < 2 ^ 32)
    → ((provider_register_name results true mid name id pool).0 ≡ id)
      × (deregister results (provider_register_name results true mid name id pool).1 id ≡ (
        success,
        record mid {
          registered_rpcs = id ∷ mid.registered_rpcs;
          num_registered_rpcs = (mid.num_registered_rpcs + 1) % 2 ^ 16;
        },
      ))
unfolding provider_register_name
deregister-provider_register_name results mid name id pool real new r d u m small =
    let noted = with_note mid id in
    let made = registered results noted name id pool new r d m in
    let nonzero : (id == 0) ≡ false = ground (arith, real) in
    let both : provider_register_name results true mid name id pool
        ≡ (id, with_rpc noted name id (or_default noted pool)) =
      ap (note_back mid) made ∙ rw nonzero refl in
    (
      ap (λ p. p.0) both,
      ap (λ p. deregister results p.1 id) both
          ∙ deregistered results noted name id (or_default noted pool) new u small,
    )

-- The references of an entry with a handle.
abbrev pub refs_at : ℕ → PoolEntry → ℕ
refs_at h p = if p.pool == h then p.refcount else 0

abbrev pub refs : ℕ → List PoolEntry → ℕ
refs h pools = total (refs_at h) pools

refs-reference :
    (pools : List PoolEntry) (g i h : ℕ)
    → ((j : ℕ) (p : PoolEntry) → get_elem? pools j ≡ some p → p.refcount + 1 < 2 ^ 32)
    → find_pool_by_handle pools g ≡ some i
    → refs h (reference pools g) ≡ refs h pools + one_if (g == h)
unfolding reference
refs-reference pools g i h small e =
    let (p, at, same) = found pools g i e in
    let all = total-modify_at (refs_at h) (one_ref_more pool_slot) pools i p at in
    let room = small i p at in
    elim (Bool-cases (g == h)) [
      | inl y ↦
          let here : (p.pool == h) ≡ true = ground (arith, y, same) in
          rw e (ground (arith, all, here, y, room))
      | inr n ↦
          let there : (p.pool == h) ≡ false = ground (arith, n, same) in
          rw e (ground (arith, all, there, n))
    ]

refs-unreference :
    (pools : List PoolEntry) (g h : ℕ) → h ≢ g → refs h (unreference pools g) ≡ refs h pools
unfolding unreference
refs-unreference pools g h other = elim (Option-cases (find_pool_by_handle pools g)) [
  | inl n ↦ rw n refl
  | inr (i, f) ↦
      let (p, at, same) = found pools g i f in
      let there : (p.pool == h) ≡ false = ground (arith, same, other) in
      rw f (ground (arith, there, total-modify_at (refs_at h) unreferenced pools i p at))
]

-- The pools after a deregistration, whatever Mercury answers.
deregister-pools :
    (results : Results) (mid : Registrar) (id : ℕ) (d : RpcData)
    → registered_data mid.rpc_data id ≡ some d
    → (deregister results mid id).1.pools ≡ unreference mid.pools d.pool
unfolding deregister
deregister-pools results mid id d e = elim (Bool-cases (is_success results.deregister)) [
  | inl y ↦ rw (y, e) refl
  | inr n ↦ rw (n, e) refl
]

second :
    (results : Results) (mid : Registrar) (name : Option String) (id pool : ℕ) (d : RpcData)
    → registered_data mid.rpc_data id ≡ some d
    → results.register ≡ success
    → pool ≢ null
    → (register_internal results mid name id pool).1
      ≡ record mid { pools = reference mid.pools pool }
unfolding register_internal
second results mid name id pool d old r real =
    let there : (pool == null) ≡ false = ground (arith, real) in rw (r, old, there) refl

-- A second registration of an id keeps the pool of the first one in its data, but it is the pool of
-- the second one that gets a reference: so the deregistration, which takes one from the pool in the
-- data, leaves that reference for good, when the two pools differ. The second pool is registered, and
-- its number of references does not wrap around.
pub second_pool_keeps_reference :
    (results : Results) (mid : Registrar) (name : Option String) (id pool i : ℕ) (d : RpcData)
    → registered_data mid.rpc_data id ≡ some d
    → results.register ≡ success
    → pool ≢ null
    → pool ≢ d.pool
    → find_pool_by_handle mid.pools pool ≡ some i
    → ((j : ℕ) (p : PoolEntry) → get_elem? mid.pools j ≡ some p → p.refcount + 1 < 2 ^ 32)
    → refs pool (deregister results (register_internal results mid name id pool).1 id).1.pools
      ≡ refs pool mid.pools + 1
second_pool_keeps_reference results mid name id pool i d old r real other there small =
    let again = second results mid name id pool d old r real in
    let twice : Registrar = record mid { pools = reference mid.pools pool } in
    let out = deregister-pools results twice id d old in
    let more : (pool == pool) ≡ true = ground arith in
    ap (λ m. refs pool (deregister results m id).1.pools) again
    ∙ ap (refs pool) out
    ∙ refs-unreference (reference mid.pools pool) d.pool pool other
    ∙ refs-reference mid.pools pool i pool small there
    ∙ ap (λ b. refs pool mid.pools + one_if b) more
