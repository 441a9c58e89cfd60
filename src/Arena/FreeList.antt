-- ===== src/Arena/FreeList.antt =====
-- src/mochi-arena.c: the free list in the memory of its objects.
use mochi_margo.Base.{
  ℕ, zero, suc, ◌+◌, ◌*◌, ◌≤◌, ◌<◌, ◌≡◌, ◌≢◌, ◌⊎◌, inl, refl, sym, subst, update, null, List, [],
  ◌∷◌, arith,
}
use mochi_margo.Arena.Defs.{thread, wiped}

-- From the pointer p, the words lead through the objects to null.
abbrev pub Chain : (ℕ → ℕ) → ℕ → List ℕ → Type 0
Chain w p [] = p ≡ null
Chain w p (u ∷ us) = (p ≡ u) × (u ≢ null) × Chain w (w u) us

-- An object that overlaps no object of a list, and a list of objects of which no two overlap.
abbrev pub Apart : (size x : ℕ) → List ℕ → Type 0
Apart size x [] = Unit {0}
Apart size x (u ∷ us) = ((u + size ≤ x) ⊎ (x + size ≤ u)) × Apart size x us

abbrev pub Spread : (size : ℕ) → List ℕ → Type 0
Spread size [] = Unit {0}
Spread size (u ∷ us) = Apart size u us × Spread size us

-- Memory that stays as it is at the objects of a list.
abbrev pub SameAt : (w w' : ℕ → ℕ) → List ℕ → Type 0
SameAt w w' [] = Unit {0}
SameAt w w' (u ∷ us) = (w' u ≡ w u) × SameAt w w' us

pub Chain-same :
    (w w' : ℕ → ℕ) (p : ℕ) (us : List ℕ) → SameAt w w' us → Chain w p us → Chain w' p us
Chain-same w w' p [] s c = c
Chain-same w w' p (u ∷ us) s c =
    (c.0, c.1, subst (λ q. Chain w' q us) (sym s.0) (Chain-same w w' (w u) us s.1 c.2))

pub update-SameAt :
    (w : ℕ → ℕ) (size x v : ℕ) (us : List ℕ)
    → 0 < size
    → Apart size x us
    → SameAt w (update w x v) us
update-SameAt w size x v [] h a = tt
update-SameAt w size x v (u ∷ us) h a =
    let o = a.0 in (ground (arith, o, h), update-SameAt w size x v us h a.1)

pub wiped-SameAt :
    (w : ℕ → ℕ) (size x : ℕ) (us : List ℕ)
    → 0 < size
    → Apart size x us
    → SameAt w (wiped w x size) us
wiped-SameAt w size x [] h a = tt
wiped-SameAt w size x (u ∷ us) h a =
    let o = a.0 in (ground (arith, o, h), wiped-SameAt w size x us h a.1)

-- The first n objects of a block whose objects start at base, the last one first.
abbrev pub objects : (base size n : ℕ) → List ℕ
objects base size zero = []
objects base size (suc n) = (base + n * size) ∷ objects base size n

objects-Apart : (base size i n : ℕ) → n ≤ i → Apart size (base + i * size) (objects base size n)
objects-Apart base size i zero h = tt
objects-Apart base size i (suc n) h = (inl (step i n h), objects-Apart base size i n (omega arith))
  where
    step : (i n : ℕ) → suc n ≤ i → base + n * size + size ≤ base + i * size
    step i n h = grind arith

pub objects-Spread : (base size n : ℕ) → Spread size (objects base size n)
objects-Spread base size zero = tt
objects-Spread base size (suc n) =
    (objects-Apart base size n n (omega arith), objects-Spread base size n)

-- The loop of `mochi_arena_grow` threads the objects of a block onto an empty free list.
pub thread-Chain :
    (n i base size : ℕ) (w : ℕ → ℕ) (p : ℕ)
    → base ≢ null
    → 0 < size
    → Chain w p (objects base size i)
    → Chain (thread n i base size w p).0 (thread n i base size w p).1 (objects base size (i + n))
unfolding thread
thread-Chain zero i base size w p b h c =
    subst (λ k. Chain w p (objects base size k)) (omega arith) c
thread-Chain (suc n) i base size w p b h c =
    let obj = base + i * size in
    let same =
      update-SameAt w size obj p (objects base size i) h
        (objects-Apart base size i i (omega arith)) in
    let here : update w obj p obj ≡ p = ground arith in
    subst
      (λ k.
        Chain (thread n (suc i) base size (update w obj p) obj).0
          (thread n (suc i) base size (update w obj p) obj).1 (objects base size k))
      (omega arith)
      (thread-Chain n (suc i) base size (update w obj p) obj b h (
        refl,
        omega arith,
        subst (λ q. Chain (update w obj p) q (objects base size i)) (sym here)
            (Chain-same w (update w obj p) p (objects base size i) same c),
      ))
