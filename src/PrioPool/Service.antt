-- ===== src/PrioPool/Service.antt =====
-- src/margo-prio-pool.c: the low-priority list is served whatever is pushed in between.
use mathlib.Core.List.{Memᴰ}
use mochi_margo.Base.Nodes.{NotIn}
use mochi_margo.Base.{
  ℕ, suc, ◌+◌, ◌%◌, ◌^◌, ◌≤◌, ◌<◌, ◌≡◌, ◌≢◌, ◌⊎◌, inl, inr, refl, ap, ◌∙◌, sym, subst, List, [],
  ◌∷◌, ◌++◌, arith, null, ◌==◌, if◌then◌else◌, Bool-cases, length,
}
use mochi_margo.PrioPool.Defs.{Pool, pool_push, pool_pop}
use mochi_margo.PrioPool.Laws.{IsPool, starts_low, pushed, pool_push_refines}
use mochi_margo.PrioPool.PopLaws.{taken, pool_pop_refines}

-- Pushes and pops from the pool s on, in any order: the units that the pops gave, the last one
-- first, then the pool and its lists.
pub data Runs (s : Pool) (us vs : List ℕ) : List ℕ → Pool → List ℕ → List ℕ → Type 0 where
  start : Runs s us vs [] s us vs
  push :
      {out : List ℕ} {t : Pool} {us' vs' : List ℕ} (p : ℕ)
      → p ≢ null
      → NotIn p us'
      → NotIn p vs'
      → suc t.num < 2 ^ 32
      → Runs s us vs out t us' vs'
      → Runs s us vs out
          (pool_push t p)
          (pushed (starts_low (t.units.sched_counter p)) p us' vs').0
          (pushed (starts_low (t.units.sched_counter p)) p us' vs').1
  pop :
      {out : List ℕ} {t : Pool} {us' vs' : List ℕ}
      → Runs s us vs out t us' vs'
      → Runs s us vs ((pool_pop t).0 ∷ out) (pool_pop t).1 (taken t us' vs').1 (taken t us' vs').2

-- The pool and the lists fit all along.
Runs-IsPool :
    (s : Pool) (us vs : List ℕ) {out : List ℕ} {t : Pool} {us' vs' : List ℕ}
    → IsPool s us vs
    → Runs s us vs out t us' vs'
    → IsPool t us' vs'
Runs-IsPool s us vs w start = w
Runs-IsPool s us vs w (push p n a b room r) =
    (pool_push_refines _ p _ _ (Runs-IsPool s us vs w r) n a b room).valid
Runs-IsPool s us vs w (pop r) = (pool_pop_refines _ _ _ (Runs-IsPool s us vs w r)).valid

-- While a unit waits at the head of the low-priority list, the pops count on from the residue c.
record Waits (c : ℕ) (v : ℕ) (out : List ℕ) (t : Pool) (vs' : List ℕ) : Type 0 where
  rest : List ℕ
  ahead : vs' ≡ v ∷ rest
  counts : t.cnt % 256 ≡ (c + length out) % 256
  bound : c + length out ≤ 256

wait_push :
    (c v p : ℕ) (out : List ℕ) (t : Pool) (us' vs' : List ℕ)
    → Waits c v out t vs'
    → (pool_push t p).cnt ≡ t.cnt
    → Waits c v out (pool_push t p) (pushed (starts_low (t.units.sched_counter p)) p us' vs').1
wait_push c v p out t us' vs' w same = elim (Bool-cases (starts_low (t.units.sched_counter p))) [
  | inl e ↦ rw e (record {
    rest = w.rest ++ p ∷ [];
    ahead = ap (λ k. k ++ p ∷ []) w.ahead;
    counts = rw same w.counts;
    bound = w.bound;
  })
  | inr e ↦
      rw e (record { rest = w.rest; ahead = w.ahead; counts = rw same w.counts; bound = w.bound })
]

wait_pop :
    (c v : ℕ) (out : List ℕ) (t : Pool) (us' rest : List ℕ)
    → t.cnt % 256 ≡ (c + length out) % 256
    → c + length out ≤ 256
    → IsPool t us' (v ∷ rest)
    → Memᴰ v ((pool_pop t).0 ∷ out)
      ⊎ Waits c v ((pool_pop t).0 ∷ out) (pool_pop t).1 (taken t us' (v ∷ rest)).2
wait_pop c v out t [] rest n b w = inl (Memᴰ.head (sym (pool_pop_refines t [] (v ∷ rest) w).unit))
wait_pop c v out t (u ∷ us') rest n b w =
    let d = pool_pop_refines t (u ∷ us') (v ∷ rest) w in
    elim (Bool-cases (t.cnt % 256 == 0)) [
      | inl e ↦ inl (Memᴰ.head (sym (d.unit ∙ rw e)))
      | inr e ↦ inr (record {
        rest = rest;
        ahead = rw e;
        counts = ground (arith, d.cnt, n, w.num);
        bound = ground (arith, n, b, e);
      })
    ]

-- Whatever was pushed and popped, the head of the low-priority list was taken or waits.
served_or_Waits :
    (c v : ℕ) (s : Pool) (us vs : List ℕ) {out : List ℕ} {t : Pool} {us' vs' : List ℕ}
    → IsPool s us (v ∷ vs)
    → s.cnt % 256 ≡ c % 256
    → c ≤ 256
    → Runs s us (v ∷ vs) out t us' vs'
    → Memᴰ v out ⊎ Waits c v out t vs'
served_or_Waits c v s us vs w e b start =
    inr (record { rest = vs; ahead = refl; counts = omega arith; bound = omega arith })
served_or_Waits c v s us vs w e b (push p n o o' room r) =
    elim (served_or_Waits c v s us vs w e b r) [
      | inl h ↦ inl h
      | inr k ↦ inr (
          wait_push c v p _ _ _ _ k
            (pool_push_refines _ p _ _ (Runs-IsPool s us (v ∷ vs) w r) n o o' room).same_cnt)
    ]
served_or_Waits c v s us vs w e b (pop {out = out} {t = t} {us' = us'} {vs' = vs'} r) =
    elim (served_or_Waits c v s us vs w e b r) [
      | inl h ↦ inl (Memᴰ.tail h)
      | inr k ↦ rw k.ahead (
          wait_pop c v out t us' k.rest k.counts k.bound
            (subst (λ l. IsPool t us' l) k.ahead (Runs-IsPool s us (v ∷ vs) w r)))
    ]

-- On a well-formed pool, the unit at the head of the low-priority list is among the units that the next 256 pops give,
-- whatever is pushed before, between and after them, as long as only units that are in neither
-- list are pushed and the number of units stays below 2 ^ 32.
pub low_is_served :
    (s : Pool) (us : List ℕ) (v : ℕ) (vs : List ℕ) {out : List ℕ} {t : Pool} {us' vs' : List ℕ}
    → IsPool s us (v ∷ vs)
    → Runs s us (v ∷ vs) out t us' vs'
    → 256 ≤ length out
    → Memᴰ v out
low_is_served s us v vs w r enough =
    let c = if s.cnt % 256 == 0 then 256 else s.cnt % 256 in
    elim (served_or_Waits c v s us vs w (ground arith) (ground arith) r) [
      | inl h ↦ h
      | inr k ↦ absurd (ground (arith, k.bound, enough))
    ]
