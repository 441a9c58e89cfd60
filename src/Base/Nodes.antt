-- ===== src/Base/Nodes.antt =====
-- Lists of distinct nodes, for linked structures.
use mathlib.Core.Path.{◌≡◌, refl, sym}
use mathlib.Core.Logic.{◌≢◌}
use mathlib.Core.List.{List, [], ◌∷◌, ◌++◌}
use Prim.Native.Nat.{ℕ}
use mochi_margo.Base.Store.{null}

abbrev pub NotIn : ℕ → List ℕ → Type 0
NotIn p [] = Unit {0}
NotIn p (u ∷ us) = (u ≢ p) × NotIn p us

abbrev pub Distinct : List ℕ → Type 0
Distinct [] = Unit {0}
Distinct (u ∷ us) = NotIn u us × Distinct us

abbrev pub last_of : List ℕ → ℕ
last_of [] = null
last_of (u ∷ []) = u
last_of (u ∷ v ∷ us) = last_of (v ∷ us)

pub last_of-ne : (p u : ℕ) (us : List ℕ) → NotIn p (u ∷ us) → last_of (u ∷ us) ≢ p
last_of-ne p u [] h = h.0
last_of-ne p u (v ∷ us) h = last_of-ne p v us h.1

pub last_of-snoc : (p u : ℕ) (us : List ℕ) → last_of (u ∷ us ++ p ∷ []) ≡ p
last_of-snoc p u [] = refl
last_of-snoc p u (v ∷ us) = last_of-snoc p v us

pub NotIn-snoc : (u p : ℕ) (us : List ℕ) → NotIn u us → p ≢ u → NotIn u (us ++ p ∷ [])
NotIn-snoc u p [] h n = (n, tt)
NotIn-snoc u p (v ∷ us) h n = (h.0, NotIn-snoc u p us h.1 n)

pub Distinct-snoc : (p : ℕ) (us : List ℕ) → NotIn p us → Distinct us → Distinct (us ++ p ∷ [])
Distinct-snoc p [] out d = (tt, tt)
Distinct-snoc p (u ∷ us) out d =
    (NotIn-snoc u p us d.0 (λ e. out.0 (sym e)), Distinct-snoc p us out.1 d.1)
