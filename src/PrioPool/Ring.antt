-- ===== src/PrioPool/Ring.antt =====
-- src/margo-prio-pool.c: circular doubly linked lists.
use mochi_margo.Base.Nodes.{NotIn, Distinct, last_of, last_of-ne}
use mochi_margo.Base.{ℕ, ◌≡◌, ◌≢◌, ◌∙◌, sym, List, [], ◌∷◌, ◌++◌}

-- From the node a the links lead through the list to z, and back.
abbrev pub Seg : (next prev : ℕ → ℕ) → ℕ → List ℕ → ℕ → Type 0
Seg next prev a [] z = (next a ≡ z) × (prev z ≡ a)
Seg next prev a (b ∷ bs) z = (next a ≡ b) × (prev b ≡ a) × Seg next prev b bs z

pub Seg-last :
    (next prev : ℕ → ℕ) (a : ℕ) (bs : List ℕ) (z : ℕ)
    → Seg next prev a bs z
    → prev z ≡ last_of (a ∷ bs)
Seg-last next prev a [] z s = s.1
Seg-last next prev a (b ∷ bs) z s = Seg-last next prev b bs z s.2

-- Links that agree off two lists of nodes.
abbrev pub SameOff : (f g : ℕ → ℕ) → (a b : ℕ) → Type 0
SameOff f g a b = (x : ℕ) → x ≢ a → x ≢ b → g x ≡ f x

module _ (f f' g g' : ℕ → ℕ) where
  -- A node p linked in between the last node and z.
  pub Seg-snoc :
      (p a : ℕ) (bs : List ℕ) (z : ℕ)
      → f' (last_of (a ∷ bs)) ≡ p
      → f' p ≡ z
      → g' p ≡ last_of (a ∷ bs)
      → g' z ≡ p
      → SameOff f f' (last_of (a ∷ bs)) p
      → SameOff g g' z p
      → NotIn p (a ∷ bs)
      → NotIn z bs
      → Distinct (a ∷ bs)
      → Seg f g a bs z
      → Seg f' g' a (bs ++ p ∷ []) z
  Seg-snoc p a [] z tp pz pt zp sf sg out nz d s = (tp, pt, (pz, zp))
  Seg-snoc p a (b ∷ bs) z tp pz pt zp sf sg out nz d s = (
    sf a (λ e. last_of-ne a b bs d.0 (sym e)) out.0 ∙ s.0,
    sg b nz.0 out.1.0 ∙ s.1,
    Seg-snoc p b bs z tp pz pt zp sf sg out.1 nz.1 d.1 s.2,
  )

  -- The end z made to be y.
  pub Seg-retarget :
      (h a : ℕ) (bs : List ℕ) (z y : ℕ)
      → f' (last_of (a ∷ bs)) ≡ y
      → g' y ≡ last_of (a ∷ bs)
      → SameOff f f' (last_of (a ∷ bs)) h
      → SameOff g g' y h
      → NotIn h (a ∷ bs)
      → NotIn y bs
      → Distinct (a ∷ bs)
      → Seg f g a bs z
      → Seg f' g' a bs y
  Seg-retarget h a [] z y ty yt sf sg out ny d s = (ty, yt)
  Seg-retarget h a (b ∷ bs) z y ty yt sf sg out ny d s = (
    sf a (λ e. last_of-ne a b bs d.0 (sym e)) out.0 ∙ s.0,
    sg b ny.0 out.1.0 ∙ s.1,
    Seg-retarget h b bs z y ty yt sf sg out.1 ny.1 d.1 s.2,
  )

  -- Links that agree on the nodes of the list.
  abbrev pub Agree : List ℕ → Type 0
  Agree [] = Unit {0}
  Agree (x ∷ xs) = (f' x ≡ f x) × (g' x ≡ g x) × Agree xs

  pub Seg-frame :
      (a : ℕ) (bs : List ℕ) (z : ℕ)
      → Agree (a ∷ bs)
      → g' z ≡ g z
      → Seg f g a bs z
      → Seg f' g' a bs z
  Seg-frame a [] z e k s = (e.0 ∙ s.0, k ∙ s.1)
  Seg-frame a (b ∷ bs) z e k s = (e.0 ∙ s.0, e.2.1 ∙ s.1, Seg-frame b bs z e.2 k s.2)
