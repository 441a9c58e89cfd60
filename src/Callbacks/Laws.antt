-- ===== src/Callbacks/Laws.antt =====
-- src/margo-core.c: the lists of callbacks are a stack for every owner, and the loops that call them
-- end.
use mochi_margo.Base.{
  ℕ, zero, suc, ◌≤◌, ◌<◌, ◌≡◌, ◌≢◌, refl, ap, Bool, true, false, Bool-cases, ◌==◌, if◌then◌else◌,
  null, Option, none, some, List, [], ◌∷◌, length, inl, inr, arith,
}
use mochi_margo.Callbacks.Defs.{Callback, push, top, pop, after, call_all}

-- The stack of an owner.
abbrev pub view : ℕ → List Callback → List (ℕ × ℕ)
view owner [] = []
view owner (c ∷ cs) =
    if c.owner == owner then (c.callback, c.uargs) ∷ view owner cs else view owner cs

-- What a stack promises.
abbrev pub head : List (ℕ × ℕ) → Option (ℕ × ℕ)
head [] = none
head (x ∷ xs) = some x

abbrev pub tail : List (ℕ × ℕ) → List (ℕ × ℕ)
tail [] = []
tail (x ∷ xs) = xs

abbrev pub has_some : List (ℕ × ℕ) → Bool
has_some [] = false
has_some (x ∷ xs) = true

top-view : (cbs : List Callback) (owner : ℕ) → top cbs owner ≡ head (view owner cbs)
unfolding top
top-view [] owner = refl
top-view (c ∷ cs) owner = elim (Bool-cases (c.owner == owner)) [
  | inl y ↦ rw y refl
  | inr n ↦ rw n (top-view cs owner)
]

pop-view :
    (cbs : List Callback) (owner : ℕ)
    → ((pop cbs owner).0 ≡ has_some (view owner cbs))
      × (view owner (pop cbs owner).1 ≡ tail (view owner cbs))
unfolding pop
pop-view [] owner = (refl, refl)
pop-view (c ∷ cs) owner =
    let rest = pop-view cs owner in
    elim (Bool-cases (c.owner == owner)) [
      | inl y ↦ rw y (refl, refl)
      | inr n ↦ rw n (rest.0, rw n rest.1)
    ]

pop-other :
    (cbs : List Callback) (owner other : ℕ)
    → other ≢ owner
    → view other (pop cbs owner).1 ≡ view other cbs
unfolding pop
pop-other [] owner other d = refl
pop-other (c ∷ cs) owner other d =
    let rest = pop-other cs owner other d in
    elim (Bool-cases (c.owner == owner)) [
      | inl y ↦ let no : (c.owner == other) ≡ false = ground (arith, y, d) in rw (y, no) refl
      | inr n ↦ elim (Bool-cases (c.owner == other)) [
        | inl z ↦ rw (n, z) (ap (λ l. (c.callback, c.uargs) ∷ l) rest)
        | inr z ↦ rw (n, z) rest
      ]
    ]

push-view :
    (cbs : List Callback) (owner callback uargs : ℕ)
    → callback ≢ null
    → (view owner (push cbs owner callback uargs) ≡ (callback, uargs) ∷ view owner cbs)
      × ((other : ℕ) → other ≢ owner → view other (push cbs owner callback uargs) ≡ view other cbs)
unfolding push
push-view cbs owner callback uargs real =
    let there : (callback == null) ≡ false = ground (arith, real) in
    let own : (owner == owner) ≡ true = ground arith in
    (
      rw (there, own) refl,
      λ other d. let no : (owner == other) ≡ false = ground (arith, d) in rw (there, no) refl,
    )

-- A list of callbacks is a stack for every owner: a push puts a callback on the stack of its owner, top
-- reads the one on it, pop takes it off, says whether there was one, and no operation touches the
-- stack of another owner.
pub stacks_refine :
    (cbs : List Callback) (owner callback uargs : ℕ)
    → callback ≢ null
    → (view owner (push cbs owner callback uargs) ≡ (callback, uargs) ∷ view owner cbs)
      × (top cbs owner ≡ head (view owner cbs))
      × ((pop cbs owner).0 ≡ has_some (view owner cbs))
      × (view owner (pop cbs owner).1 ≡ tail (view owner cbs))
      × ((other : ℕ)
          → other ≢ owner
          → (view other (push cbs owner callback uargs) ≡ view other cbs)
            × (view other (pop cbs owner).1 ≡ view other cbs))
stacks_refine cbs owner callback uargs real =
    let pushed = push-view cbs owner callback uargs real in
    let popped = pop-view cbs owner in
    (
      pushed.0,
      top-view cbs owner,
      popped.0,
      popped.1,
      λ other d. (pushed.1 other d, pop-other cbs owner other d),
    )

-- The loop over the callbacks ends, within one round more than there are, if no callback leaves more
-- of them than it finds.
pub call_all_terminates :
    (effect : Callback → List Callback → List Callback)
    → ((c : Callback) (cs : List Callback) → length (effect c cs) ≤ length cs)
    → (fuel : ℕ) (cbs : List Callback) → length cbs < fuel
    → (called : List Callback) × (call_all effect fuel cbs ≡ some called)
      × (length called ≤ length cbs)
unfolding call_all
call_all_terminates effect shrinks zero cbs h = absurd (omega (arith, h))
call_all_terminates effect shrinks (suc fuel) [] h = ([], refl, omega arith)
call_all_terminates effect shrinks (suc fuel) (c ∷ cs) h =
    let (called, e, few) =
      call_all_terminates effect shrinks fuel (effect c cs) (omega (arith, h, shrinks c cs)) in
    (c ∷ called, ap (after c) e, omega (arith, few, shrinks c cs))

-- Callbacks that leave the list alone are all called, the last one that was added first.
pub call_all_calls :
    (fuel : ℕ) (cbs : List Callback) → length cbs < fuel → call_all (λ c cs. cs) fuel cbs ≡ some cbs
unfolding call_all
call_all_calls zero cbs h = absurd (omega (arith, h))
call_all_calls (suc fuel) [] h = refl
call_all_calls (suc fuel) (c ∷ cs) h = ap (after c) (call_all_calls fuel cs (omega (arith, h)))
