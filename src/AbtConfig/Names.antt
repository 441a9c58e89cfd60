-- ===== src/AbtConfig/Names.antt =====
-- src/margo-abt-config.c: names made up for pools and execution streams.
use Prim.Native.String.{String}
use mochi_margo.Base.Text.{same_text, same_text_iff}
use mochi_margo.Base.{
  ℕ, zero, suc, ◌≤◌, ◌<◌, ◌≡◌, ◌≢◌, inl, inr, refl, ap, ◌∙◌, sym, Bool, true, false, Bool-cases,
  if◌then◌else◌, Option, none, some, List, [], ◌∷◌, length, arith,
}

-- The inner loop: whether an entry has the name.
unfoldable pub taken : List String → String → Bool
taken [] name = false
taken (n ∷ ns) name = if same_text name n then true else taken ns name

-- `generate_unused_pool_name` and `generate_unused_xstream_name`, on the names of the entries, from
-- the index i on; `numbered` is what snprintf writes for an index.
unfoldable pub generate_unused_name :
    (numbered : ℕ → String) → (fuel : ℕ) → List String → ℕ → Option String
unfolding taken
generate_unused_name numbered zero names i = none
generate_unused_name numbered (suc fuel) names i =
    let next = generate_unused_name numbered fuel names (suc i) in
    if taken names (numbered i) then next else some (numbered i)

-- The names other than one.
abbrev without : String → List String → List String
without s [] = []
without s (n ∷ ns) = if same_text s n then without s ns else n ∷ without s ns

without-le : (s : String) (ns : List String) → length (without s ns) ≤ length ns
without-le s [] = omega arith
without-le s (n ∷ ns) = ground (arith, without-le s ns)

without-lt : (s : String) (ns : List String) → taken ns s ≡ true → length (without s ns) < length ns
unfolding taken
without-lt s [] e = absurd (ground (arith, e))
without-lt s (n ∷ ns) e = elim (Bool-cases (same_text s n)) [
  | inl h ↦ rw h (omega (arith, without-le s ns))
  | inr h ↦ rw h (omega (arith, without-lt s ns (ground (arith, e, h))))
]

pub differs : (s t : String) → s ≢ t → same_text s t ≡ false
differs s t d = elim (Bool-cases (same_text s t)) [
  | inl h ↦ absurd (d ((same_text_iff s t).0 h))
  | inr h ↦ h
]

taken-without : (s t : String) (ns : List String) → t ≢ s → taken (without s ns) t ≡ taken ns t
unfolding taken
taken-without s t [] d = refl
taken-without s t (n ∷ ns) d = elim (Bool-cases (same_text s n)) [
  | inl h ↦
      let other : same_text t n ≡ false =
        differs t n (λ e. d (e ∙ sym ((same_text_iff s n).0 h))) in
      rw (h, other) (taken-without s t ns d)
  | inr h ↦ rw (h, taken-without s t ns d) refl
]

module _ (numbered : ℕ → String) (distinct : (i j : ℕ) → numbered i ≡ numbered j → i ≡ j) where
  -- A name that is not used later makes no difference to the search.
  generate-without :
      (fuel : ℕ) (ns : List String) (i j : ℕ)
      → i < j
      → generate_unused_name numbered fuel (without (numbered i) ns) j
        ≡ generate_unused_name numbered fuel ns j
  unfolding generate_unused_name
  generate-without zero ns i j h = refl
  generate-without (suc fuel) ns i j h = rw (
    taken-without (numbered i) (numbered j) ns (λ e. omega (arith, h, distinct j i e)),
    generate-without fuel ns i (suc j) (omega (arith, h)),
  )

  finds :
      (fuel : ℕ) (ns : List String) (i : ℕ)
      → length ns < fuel
      → (s : String) × (generate_unused_name numbered fuel ns i ≡ some s)
  unfolding generate_unused_name
  finds zero ns i h = absurd (omega arith)
  finds (suc fuel) ns i h = elim (Bool-cases (taken ns (numbered i))) [
    | inl t ↦
        let (s, e) =
          finds fuel (without (numbered i) ns) (suc i)
            (omega (arith, without-lt (numbered i) ns t, h)) in
        (s, rw t (sym (generate-without fuel ns i (suc i) (omega arith)) ∙ e))
    | inr t ↦ (numbered i, rw t refl)
  ]

pub unused :
    (numbered : ℕ → String) (fuel : ℕ) (ns : List String) (i : ℕ) (s : String)
    → generate_unused_name numbered fuel ns i ≡ some s
    → taken ns s ≡ false
unfolding generate_unused_name
unused numbered zero ns i s e = absurd (ground (arith, e))
unused numbered (suc fuel) ns i s e = elim (Bool-cases (taken ns (numbered i))) [
  | inl t ↦ unused numbered fuel ns (suc i) s (ground (arith, e, t))
  | inr t ↦ let same : numbered i ≡ s = ground (arith, e, t) in ap (taken ns) (sym same) ∙ t
]

-- A name that was made up is a numbered one.
pub generated :
    (numbered : ℕ → String) (fuel : ℕ) (ns : List String) (i : ℕ) (s : String)
    → generate_unused_name numbered fuel ns i ≡ some s
    → (j : ℕ) × (numbered j ≡ s)
unfolding generate_unused_name
generated numbered zero ns i s e = absurd (ground (arith, e))
generated numbered (suc fuel) ns i s e = elim (Bool-cases (taken ns (numbered i))) [
  | inl t ↦ generated numbered fuel ns (suc i) s (ground (arith, e, t))
  | inr t ↦ (i, ground (arith, e, t))
]

-- The search for an unused name ends, with a name that no entry has, after at most one round more
-- than there are entries, from whatever index it starts, if distinct indices give distinct names.
pub generate_terminates :
    (numbered : ℕ → String)
    → ((i j : ℕ) → numbered i ≡ numbered j → i ≡ j)
    → (ns : List String) (i : ℕ)
    → (s : String) × (generate_unused_name numbered (suc (length ns)) ns i ≡ some s)
      × (taken ns s ≡ false)
generate_terminates numbered distinct ns i =
    let (s, e) = finds numbered distinct (suc (length ns)) ns i (omega arith) in
    (s, e, unused numbered (suc (length ns)) ns i s e)
