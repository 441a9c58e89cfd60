-- ===== src/Timer/Insert.antt =====
-- src/margo-timer.c: `__margo_timer_queue` keeps the list sorted.
use mathlib.Core.List.{Memᴰ}
use mochi_margo.Base.Nodes.{NotIn, Distinct}
use mochi_margo.Base.{ℕ, ◌≤◌, ◌<◌, ◌≡◌, ◌≢◌, refl, ◌∙◌, sym, List, [], ◌∷◌, ◌++◌, arith}
use mochi_margo.Timer.Dl.{first_of}
use mochi_margo.Timer.Defs.{Timer}

-- All the timers of a list expire before the time k, or at k and after it.
abbrev pub AllBelow : (ℕ → Timer) → ℕ → List ℕ → Type 0
AllBelow e k [] = Unit {0}
AllBelow e k (x ∷ xs) = ((e x).expiration < k) × AllBelow e k xs

abbrev pub AllFrom : (ℕ → Timer) → ℕ → List ℕ → Type 0
AllFrom e k [] = Unit {0}
AllFrom e k (x ∷ xs) = (k ≤ (e x).expiration) × AllFrom e k xs

abbrev pub Sorted : (ℕ → Timer) → List ℕ → Type 0
Sorted e [] = Unit {0}
Sorted e (x ∷ xs) = AllFrom e (e x).expiration xs × Sorted e xs

-- The first list, backwards, before the second.
abbrev pub rev_onto : List ℕ → List ℕ → List ℕ
rev_onto [] ys = ys
rev_onto (x ∷ xs) ys = rev_onto xs (x ∷ ys)

pub rev_onto-append : (xs ys zs : List ℕ) → rev_onto xs (ys ++ zs) ≡ rev_onto xs ys ++ zs
rev_onto-append [] ys zs = refl
rev_onto-append (x ∷ xs) ys zs = rev_onto-append xs (x ∷ ys) zs

NotIn-mem : (x c : ℕ) (ws : List ℕ) → NotIn x ws → Memᴰ c ws → c ≢ x
NotIn-mem x c [] o m = elim m [ ]
NotIn-mem x c (w ∷ ws) o (Memᴰ.head e) = λ f. o.0 (sym e ∙ f)
NotIn-mem x c (w ∷ ws) o (Memᴰ.tail m) = NotIn-mem x c ws o.1 m

-- The first element is none that stands behind another.
pub first_of-ne :
    (xs : List ℕ) (x c : ℕ) (ws : List ℕ)
    → Memᴰ c ws
    → Distinct (rev_onto xs (x ∷ ws))
    → c ≢ first_of (rev_onto xs (x ∷ ws))
first_of-ne [] x c ws m d = NotIn-mem x c ws d.0 m
first_of-ne (z ∷ xs) x c ws m d = first_of-ne xs z c (x ∷ ws) (Memᴰ.tail m) d

AllFrom-le : (e : ℕ → Timer) (j k : ℕ) (xs : List ℕ) → j ≤ k → AllFrom e k xs → AllFrom e j xs
AllFrom-le e j k [] h a = tt
AllFrom-le e j k (x ∷ xs) h a = (omega (arith, h, a.0), AllFrom-le e j k xs h a.1)

AllFrom-insert :
    (e : ℕ → Timer) (k t : ℕ) (xs ys : List ℕ)
    → k ≤ (e t).expiration
    → AllFrom e k (xs ++ ys)
    → AllFrom e k (xs ++ t ∷ ys)
AllFrom-insert e k t [] ys h a = (h, a)
AllFrom-insert e k t (x ∷ xs) ys h a = (a.0, AllFrom-insert e k t xs ys h a.1)

pub Sorted-insert :
    (e : ℕ → Timer) (t : ℕ) (xs ys : List ℕ)
    → AllBelow e (e t).expiration xs
    → AllFrom e (e t).expiration ys
    → Sorted e (xs ++ ys)
    → Sorted e (xs ++ t ∷ ys)
Sorted-insert e t [] ys b f s = (f, s)
Sorted-insert e t (x ∷ xs) ys b f s = (
  AllFrom-insert e (e x).expiration t xs ys (omega (arith, b.0)) s.0,
  Sorted-insert e t xs ys b.1 f s.1,
)

-- What stands before a timer that expires before k does so too.
pub below_of_Sorted :
    (e : ℕ → Timer) (k c : ℕ) (xs ys : List ℕ)
    → (e c).expiration < k
    → Sorted e (xs ++ c ∷ ys)
    → AllBelow e k (xs ++ c ∷ [])
below_of_Sorted e k c [] ys h s = (h, tt)
below_of_Sorted e k c (x ∷ xs) ys h s =
    (omega (arith, h, le_of xs s.0), below_of_Sorted e k c xs ys h s.1)
  where
    le_of :
        (xs : List ℕ)
        → AllFrom e (e x).expiration (xs ++ c ∷ ys)
        → (e x).expiration ≤ (e c).expiration
    le_of [] a = a.0
    le_of (z ∷ zs) a = le_of zs a.1

-- A timer added to a list: before it those that expire earlier, after it the others.
pub record Inserted (e : ℕ → Timer) (t : ℕ) (us r : List ℕ) : Type 0 where
  pub before : List ℕ
  pub after : List ℕ
  pub was : us ≡ before ++ after
  pub is : r ≡ before ++ t ∷ after
  pub below : AllBelow e (e t).expiration before
  pub from : AllFrom e (e t).expiration after
  pub sorted : Sorted e r
