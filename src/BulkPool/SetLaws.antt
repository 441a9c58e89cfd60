-- ===== src/BulkPool/SetLaws.antt =====
-- src/margo-bulk-pool.c: which pool of a set serves a call.
use mochi_margo.Base.{
  ℕ, ◌≤◌, ◌≡◌, ◌≢◌, refl, sym, ap, ◌∙◌, subst, inl, inr, Bool, true, false, some, List, [], ◌∷◌,
  map, arith, leb, if◌then◌else◌, Bool-cases, mul_u64, null,
}
use mathlib.Core.List.{Memᴰ}
use mochi_margo.BulkPool.Defs.{
  Pool, Outcome, outside, fault, rejected, waits, done, pool_get, BulkInfo, pool_release,
}
use mochi_margo.BulkPool.Stack.{IsValid, contents, Got, IsAccepted, pool_release_accepted}
use mochi_margo.BulkPool.Lending.{get_pops}
use mochi_margo.BulkPool.Set.{
  Poolset, at_head, behind, get_loop, poolset_get, release_loop, poolset_release,
}

-- The sizes of the pools are the products that the loops compute.
abbrev pub Sized : (size size_mult : ℕ) → List Pool → Type 0
Sized size size_mult [] = Unit
Sized size size_mult (p ∷ ps) = (p.size ≡ size) × Sized (mul_u64 size size_mult) size_mult ps

abbrev pub All {ℓ} : (Pool → Type ℓ) → List Pool → Type ℓ
All P [] = Unit
All P (p ∷ ps) = P p × All P ps

-- The specification: the first pool that passes a test serves the call.
unfoldable pub serve :
    (Pool → Bool) → (Pool → Outcome (ℕ × Pool)) → List Pool → Outcome (ℕ × List Pool)
serve fits call [] = rejected
serve fits call (p ∷ ps) = if fits p then at_head (call p) ps else behind p (serve fits call ps)

get_loop-serve :
    (size s m : ℕ) (ps : List Pool)
    → Sized s m ps
    → get_loop size s m ps ≡ serve (λ p. leb size p.size) (λ p. pool_get (some p)) ps
unfolding get_loop serve
get_loop-serve size s m [] h = refl
get_loop-serve size s m (p ∷ ps) h = rw (h.0, get_loop-serve size (mul_u64 s m) m ps h.1) refl

-- What comes back to the pool that a handle was taken from.
abbrev pub Owned : BulkInfo → Pool → Type 0
Owned info p = (b : ℕ) → Memᴰ b (contents p) → IsAccepted info p b

abbrev stacks : List Pool → List (List ℕ)
stacks = map contents

IsAccepted-after :
    (info : BulkInfo) (p p' : Pool) (b : ℕ)
    → Got p b p'
    → IsAccepted info p b
    → IsAccepted info p' b
unfolding outside
IsAccepted-after info p p' b got a =
    subst (λ q. IsAccepted info q b) (sym got.same_rest)
      (record {
        not_null = a.not_null;
        same_size = a.same_size;
        segment = a.segment;
        accessed = a.accessed;
        inside = a.inside;
      })

Got-Owned :
    (info : BulkInfo) (p p' : Pool) (b : ℕ) → Owned info p → Got p b p' → IsAccepted info p b
Got-Owned info p p' b o got = o b (subst (λ s. Memᴰ b s) (sym got.popped) (Memᴰ.head refl))

get_then_release :
    (info : BulkInfo) (p p' : Pool) (b : ℕ)
    → IsValid p
    → Owned info p
    → pool_get (some p) ≡ done (b, p')
    → (q : Pool) × (pool_release info (some p') b ≡ done q)
      × (contents q ≡ contents p)
      × (info.get_size b ≡ p.size)
get_then_release info p p' b v o e =
    let got = get_pops p p' b v e in
    let a = Got-Owned info p p' b o got in
    let (q, r, put) =
      pool_release_accepted info p' b got.valid (IsAccepted-after info p p' b got a)
        (omega (arith, got.left, got.same_count, v.within)) in
    (q, r, put.pushed ∙ sym got.popped, sym a.same_size)

at_head_inv :
    (r : Outcome (ℕ × Pool)) (ps ps' : List Pool) (b : ℕ)
    → at_head r ps ≡ done (b, ps')
    → (p' : Pool) × (r ≡ done (b, p')) × (p' ∷ ps ≡ ps')
at_head_inv fault ps ps' b e = cc
at_head_inv rejected ps ps' b e = cc
at_head_inv waits ps ps' b e = cc
at_head_inv (done (c, q)) ps ps' b e = (q, cc, cc)

behind_inv :
    (p : Pool) (r : Outcome (ℕ × List Pool)) (ps' : List Pool) (b : ℕ)
    → behind p r ≡ done (b, ps')
    → (qs : List Pool) × (r ≡ done (b, qs)) × (p ∷ qs ≡ ps')
behind_inv p fault ps' b e = cc
behind_inv p rejected ps' b e = cc
behind_inv p waits ps' b e = cc
behind_inv p (done (c, qs)) ps' b e = (qs, cc, cc)

abbrev TakenBack : BulkInfo → (b size s m : ℕ) → (ps ps' : List Pool) → Type 0
TakenBack info b size s m ps ps' =
    (qs : List Pool) × (release_loop info b (info.get_size b) s m ps' ≡ done qs)
    × (stacks qs ≡ stacks ps)
    × (size ≤ info.get_size b)

TakenBack-here :
    (info : BulkInfo) (b size s m : ℕ) (p p' : Pool) (ps : List Pool)
    → p.size ≡ s
    → IsValid p
    → Owned info p
    → (leb size s ≡ true)
    → pool_get (some p) ≡ done (b, p')
    → TakenBack info b size s m (p ∷ ps) (p' ∷ ps)
unfolding release_loop
TakenBack-here info b size s m p p' ps h v o fit e =
    let (q, r, same, sized) = get_then_release info p p' b v o e in
    (q ∷ ps, ground arith, ap (λ c. c ∷ stacks ps) same, ground arith)

TakenBack-later :
    (info : BulkInfo) (b size s m : ℕ) (p : Pool) (ps ps' : List Pool)
    → (leb size s ≡ false)
    → TakenBack info b size (mul_u64 s m) m ps ps'
    → TakenBack info b size s m (p ∷ ps) (p ∷ ps')
unfolding release_loop
TakenBack-later info b size s m p ps ps' small (qs, r, same, enough) =
    (p ∷ qs, ground arith, ap (λ c. contents p ∷ c) same, enough)

get-release :
    (info : BulkInfo) (size s m : ℕ) (ps ps' : List Pool) (b : ℕ)
    → Sized s m ps
    → All IsValid ps
    → All (Owned info) ps
    → get_loop size s m ps ≡ done (b, ps')
    → TakenBack info b size s m ps ps'
unfolding get_loop
get-release info size s m [] ps' b h v o e = absurd (ground arith)
get-release info size s m (p ∷ ps) ps' b h v o e = elim (Bool-cases (leb size s)) [
  | inl fit ↦
      let (p', got, same) = at_head_inv (pool_get (some p)) ps ps' b (ground arith) in
      subst (TakenBack info b size s m (p ∷ ps)) same
        (TakenBack-here info b size s m p p' ps h.0 v.0 o.0 fit got)
  | inr small ↦
      let (qs, got, same) = behind_inv p (get_loop size (mul_u64 s m) m ps) ps' b (ground arith) in
      subst (TakenBack info b size s m (p ∷ ps)) same (
        TakenBack-later info b size s m p ps qs small
          (get-release info size (mul_u64 s m) m ps qs b h.1 v.1 o.1 got))
]

-- `margo_bulk_poolset_get` on a set whose pools have the sizes that it recomputes asks the first
-- pool whose own size is large enough, and no other.
pub poolset_get_serves :
    (s : Poolset) (size : ℕ)
    → Sized s.first_size s.size_multiple s.pools
    → poolset_get (some s) size ≡ serve (λ p. leb size p.size) (λ p. pool_get (some p)) s.pools
unfolding poolset_get
poolset_get_serves s size h = get_loop-serve size s.first_size s.size_multiple s.pools h

-- A handle that `margo_bulk_poolset_get` returns has a size of at least what was asked for, and
-- `margo_bulk_poolset_release` puts it back: all pools then have the free handles, in the order,
-- that they had before. The pools are well formed, have the sizes that the set computes, and hold
-- handles that pass the tests of a release.
pub poolset_get-release :
    (info : BulkInfo) (s : Poolset) (size b : ℕ) (ps' : List Pool)
    → Sized s.first_size s.size_multiple s.pools
    → All IsValid s.pools
    → All (Owned info) s.pools
    → b ≢ null
    → poolset_get (some s) size ≡ done (b, ps')
    → (qs : List Pool) × (poolset_release info (some (record s { pools = ps' })) b ≡ done qs)
      × (map contents qs ≡ map contents s.pools)
      × (size ≤ info.get_size b)
unfolding poolset_get poolset_release
poolset_get-release info s size b ps' h v o n e =
    let (qs, r, same, enough) =
      get-release info size s.first_size s.size_multiple s.pools ps' b h v o e in
    (qs, ground arith, same, enough)
