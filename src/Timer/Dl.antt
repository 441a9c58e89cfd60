-- ===== src/Timer/Dl.antt =====
-- src/margo-timer.c: what the timers use of the doubly linked lists of utlist.h, whose macros
-- DL_APPEND, DL_PREPEND, DL_APPEND_ELEM and DL_DELETE are operations on the links and the head.
use mochi_margo.Base.Nodes.{NotIn, Distinct, last_of}
use mochi_margo.Base.{ℕ, ◌≡◌, List, [], ◌∷◌, ◌++◌, null}

abbrev pub first_of : List ℕ → ℕ
first_of [] = null
first_of (u ∷ us) = u

-- `Links` is a list with the fields `prev` and `next` of all the timers. `clear` writes null to
-- the two fields of a timer that is in no list.
pub record Dl : Type 1 where
  pub Links : Type 0
  pub head : Links → ℕ
  pub prev : Links → ℕ → ℕ
  pub next : Links → ℕ → ℕ
  pub append : Links → ℕ → Links
  pub prepend : Links → ℕ → Links
  pub append_elem : Links → (elem added : ℕ) → Links
  pub delete : Links → ℕ → Links
  pub clear : Links → ℕ → Links

-- What utlist.h documents: a list in order, where the head's `prev` is the last element, and
-- where an operation writes the fields of no timer but those in the list and its argument.
pub record DlLaws (D : Dl) : Type 0 where
  pub contents : D.Links → List ℕ
  pub head_of : (l : D.Links) → D.head l ≡ first_of (contents l)
  pub prev_first :
      (l : D.Links) (p : ℕ) (us : List ℕ) → contents l ≡ p ∷ us → D.prev l p ≡ last_of (p ∷ us)
  pub prev_after :
      (l : D.Links) (us : List ℕ) (c p : ℕ) (ws : List ℕ)
      → contents l ≡ us ++ c ∷ p ∷ ws
      → Distinct (us ++ c ∷ p ∷ ws)
      → D.prev l p ≡ c
  pub contents-append :
      (l : D.Links) (p : ℕ) → NotIn p (contents l) → contents (D.append l p) ≡ contents l ++ p ∷ []
  pub contents-prepend :
      (l : D.Links) (p : ℕ) → NotIn p (contents l) → contents (D.prepend l p) ≡ p ∷ contents l
  pub contents-append_elem :
      (l : D.Links) (us : List ℕ) (c p : ℕ) (ws : List ℕ)
      → contents l ≡ us ++ c ∷ ws
      → NotIn p (contents l)
      → Distinct (us ++ c ∷ ws)
      → contents (D.append_elem l c p) ≡ us ++ c ∷ p ∷ ws
  pub contents-delete_head :
      (l : D.Links) (p : ℕ) (ws : List ℕ) → contents l ≡ p ∷ ws → contents (D.delete l p) ≡ ws
  pub contents-clear :
      (l : D.Links) (p : ℕ) → NotIn p (contents l) → contents (D.clear l p) ≡ contents l
