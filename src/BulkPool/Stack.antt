-- ===== src/BulkPool/Stack.antt =====
-- src/margo-bulk-pool.c: a pool refines a bounded stack of its free handles.
use mochi_margo.Base.{
  ℕ, suc, ◌+◌, ◌-◌, ◌≤◌, ◌<◌, ◌≡◌, ◌≢◌, refl, inl, inr, Bool-cases, ltb→lt, le→ltb, if◌then◌else◌,
  false, ap, ◌∙◌, sub_u64, add_u64, lt→ltb, ltb, suc, true, false, some, List, [], ◌∷◌, arith,
  length, drop, set, length-set, length-drop, get_elem?-drop, drop-set, u64_max, null,
}
use mochi_margo.BulkPool.Defs.{
  Pool, Outcome, fault, rejected, waits, done, bp_get, pool_get, pool_tryget, bp_release, BulkInfo,
  outside, pool_release,
}

pub record IsValid (p : Pool) : Type 0 where
  pub word : p.count ≤ u64_max
  pub sized : length p.bulks ≡ p.count
  pub within : p.num_free ≤ p.count

-- The free handles, the next one to be handed out first.
abbrev pub contents : Pool → List ℕ
contents p = drop (p.count - p.num_free) p.bulks

pub length-contents : {p : Pool} → IsValid p → length (contents p) ≡ p.num_free
length-contents {p} v = omega (arith, length-drop (p.count - p.num_free) p.bulks)

-- One handle taken off the stack.
pub record Got (p : Pool) (b : ℕ) (p' : Pool) : Type 0 where
  pub returns : bp_get p ≡ some (b, p')
  pub popped : contents p ≡ b ∷ contents p'
  pub valid : IsValid p'
  pub left : p'.num_free + 1 ≡ p.num_free
  pub same_rest : p' ≡ record p { num_free = p'.num_free }
  pub same_count : p'.count ≡ p.count

pub bp_get_pops : (p : Pool) → IsValid p → 0 < p.num_free → (b : ℕ) × (p' : Pool) × Got p b p'
unfolding bp_get
bp_get_pops p v h =
    let (b, at, rest) = get_elem?-drop p.bulks (p.count - p.num_free) (omega arith) in
    let index : sub_u64 p.count p.num_free ≡ p.count - p.num_free = omega arith in
    let fewer : sub_u64 p.num_free 1 ≡ p.num_free - 1 = omega arith in
    let next : suc (p.count - p.num_free) ≡ p.count - sub_u64 p.num_free 1 = omega arith in
    (
      b,
      record p { num_free = sub_u64 p.num_free 1 },
      record {
        returns = rw (index, at) refl;
        popped = rest ∙ ap (λ n. b ∷ drop n p.bulks) next;
        valid = omega arith;
        left = omega arith;
        same_rest = refl;
        same_count = refl;
      },
    )

-- One handle put on the stack.
pub record Put (p : Pool) (b : ℕ) (p' : Pool) : Type 0 where
  pub returns : bp_release p b ≡ some p'
  pub pushed : contents p' ≡ b ∷ contents p
  pub valid : IsValid p'
  pub left : p'.num_free ≡ p.num_free + 1
  pub same_count : p'.count ≡ p.count

pub bp_release_pushes :
    (p : Pool) (b : ℕ) → IsValid p → p.num_free < p.count → (p' : Pool) × Put p b p'
unfolding bp_release
bp_release_pushes p b v h =
    let i = p.count - (p.num_free + 1) in
    let more : add_u64 p.num_free 1 ≡ p.num_free + 1 = omega arith in
    let index : sub_u64 p.count (add_u64 p.num_free 1) ≡ i = omega arith in
    let inside : ltb i (length p.bulks) ≡ true = lt→ltb _ _ (omega arith) in
    let next : suc i ≡ p.count - p.num_free = omega arith in
    (
      record p { num_free = p.num_free + 1; bulks = set p.bulks i b },
      record {
        returns = rw (index, more, inside) refl;
        pushed = drop-set p.bulks i b (omega arith) ∙ ap (λ n. b ∷ drop n p.bulks) next;
        valid = omega (arith, length-set p.bulks i b);
        left = refl;
        same_count = refl;
      },
    )

-- A pool without free handles is left as it is by every way to take one.
pub empty_pool :
    (p : Pool)
    → p.num_free ≡ 0
    → (pool_get (some p) ≡ waits) × (pool_tryget (some p) ≡ done (null, p))
unfolding pool_get pool_tryget
empty_pool p e = (ground arith, ground arith)

-- What the tests of a release ask of a handle.
pub record IsAccepted (info : BulkInfo) (p : Pool) (b : ℕ) : Type 0 where
  pub not_null : b ≢ null
  pub same_size : p.size ≡ info.get_size b
  pub segment : ℕ × ℕ
  pub accessed : info.access b p.size p.flag ≡ some segment
  pub inside : outside p segment ≡ false

abbrev pub map_done : {A B : Type 0} → (A → B) → Outcome A → Outcome B
map_done f fault = fault
map_done f rejected = rejected
map_done f waits = waits
map_done f (done a) = done (f a)

abbrev pub view : ℕ × Pool → ℕ × List ℕ
view (b, p) = (b, contents p)

-- The specification: a stack. Its second field is the answer of the call that does not wait.
abbrev pub pop : List ℕ → Outcome (ℕ × List ℕ) × Outcome (ℕ × List ℕ)
pop [] = (waits, done (null, []))
pop (b ∷ s) = (done (b, s), done (b, s))

get_refines_by :
    (p : Pool) (s : List ℕ)
    → IsValid p
    → contents p ≡ s
    → (map_done view (pool_get (some p)), map_done view (pool_tryget (some p))) ≡ pop s
unfolding pool_get pool_tryget
get_refines_by p [] v e =
    let free = length-contents v in
    let none_free : p.num_free ≡ 0 = omega (arith, ap length e) in ground arith
get_refines_by p (c ∷ s) v e =
    let free = length-contents v in
    let some_free : 0 < p.num_free = omega (arith, ap length e) in
    let (b, p', got) = bp_get_pops p v some_free in ground (arith, got.returns, got.popped)

-- On a valid pool `margo_bulk_pool_get` and `margo_bulk_pool_tryget` pop the stack of the free
-- handles; on an empty stack the first waits, and the second returns HG_BULK_NULL and changes
-- nothing.
pub get_refines :
    (p : Pool)
    → IsValid p
    → (map_done view (pool_get (some p)), map_done view (pool_tryget (some p))) ≡ pop (contents p)
get_refines p v = get_refines_by p (contents p) v refl

module _ (info : BulkInfo) (p : Pool) (b : ℕ) (v : IsValid p) (a : IsAccepted info p b) where
  pub pool_release_accepted :
      p.num_free < p.count → (p' : Pool) × (pool_release info (some p) b ≡ done p') × Put p b p'
  unfolding pool_release
  pool_release_accepted h =
      let (p', put) = bp_release_pushes p b v h in
      (p', ground (arith, a.not_null, a.same_size, a.accessed, a.inside, put.returns), put)

  release_full : p.num_free ≡ p.count → pool_release info (some p) b ≡ fault
  unfolding pool_release bp_release
  release_full h =
      let index : ltb (sub_u64 p.count (add_u64 p.num_free 1)) (length p.bulks) ≡ false =
        le→ltb _ _ (omega arith) in
      ground (arith, index, a.not_null, a.same_size, a.accessed, a.inside)

  -- `margo_bulk_pool_release` of a handle that passes its tests pushes the handle on the stack of
  -- free handles of a valid pool if fewer handles are free than the pool has; if all are free (a
  -- second release of one handle), it writes outside the array.
  pub release_refines :
      map_done contents (pool_release info (some p) b)
      ≡ (if ltb p.num_free p.count then done (b ∷ contents p) else fault)
  release_refines = elim (Bool-cases (ltb p.num_free p.count)) [
    | inl h ↦
        let (p', returns, put) = pool_release_accepted (ltb→lt _ _ h) in
        rw (h, returns) (ap done put.pushed)
    | inr h ↦ rw (h, release_full (ground (arith, v.within)))
  ]
