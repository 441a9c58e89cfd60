-- ===== src/Registry/Totals.antt =====
-- Totals over an array of entries, and what its operations do to them.
use mathlib.Core.Option.{some-injective}
use mochi_margo.Base.{
  ℕ, zero, suc, ◌+◌, ◌-◌, ◌≤◌, ◌≡◌, inl, inr, refl, ap, Bool, true, Bool-cases, Option, none, some,
  List, [], ◌∷◌, ◌++◌, length, get_elem?, set, take, if◌then◌else◌, arith, Option-cases,
}
use mochi_margo.Registry.Defs.{next_index, find_first, modify_at, swap_remove}

module _ {ℓ} {A : Type ℓ} where
  abbrev pub total : (A → ℕ) → List A → ℕ
  total w [] = 0
  total w (x ∷ xs) = w x + total w xs

  -- How many entries pass a test.
  abbrev pub number : (A → Bool) → List A → ℕ
  number test xs = total (λ x. if test x then 1 else 0) xs

  pub total-append : (w : A → ℕ) (xs ys : List A) → total w (xs ++ ys) ≡ total w xs + total w ys
  total-append w [] ys = omega arith
  total-append w (x ∷ xs) ys = omega (arith, total-append w xs ys)

  pub total-snoc : (w : A → ℕ) (xs : List A) (x : A) → total w (xs ++ x ∷ []) ≡ total w xs + w x
  total-snoc w xs x = omega (arith, total-append w xs (x ∷ []))

  pub total-same : (v w : A → ℕ) (xs : List A) → ((x : A) → v x ≡ w x) → total v xs ≡ total w xs
  total-same v w [] h = refl
  total-same v w (x ∷ xs) h = omega (arith, h x, total-same v w xs h)

  -- An entry's weight is part of the total.
  pub le-total :
      (w : A → ℕ) (xs : List A) (i : ℕ) (x : A) → get_elem? xs i ≡ some x → w x ≤ total w xs
  le-total w [] i x e = absurd (ground (arith, e))
  le-total w (y ∷ xs) zero x e = ground (arith, e)
  le-total w (y ∷ xs) (suc i) x e = omega (arith, le-total w xs i x e)

  pub find_first-none :
      (test : A → Bool) (xs : List A) → find_first test xs ≡ none → number test xs ≡ 0
  unfolding find_first
  find_first-none test [] e = refl
  find_first-none test (x ∷ xs) e = elim (Option-cases (find_first test xs)) [
    | inl n ↦ ground (arith, e, find_first-none test xs n)
    | inr (i, f) ↦ absurd (ground (arith, e, f))
  ]

  at_head :
      (test : A → Bool) (x : A) (xs : List A) (i : ℕ)
      → test x ≡ true
      → i ≡ 0
      → (z : A) × (get_elem? (x ∷ xs) i ≡ some z) × (test z ≡ true)
  at_head test x xs zero h e = (x, refl, h)
  at_head test x xs (suc i) h e = absurd (omega (arith, e))

  behind :
      (test : A → Bool) (x : A) (xs : List A) (o : Option ℕ) (i : ℕ)
      → ((j : ℕ) → o ≡ some j → (z : A) × (get_elem? xs j ≡ some z) × (test z ≡ true))
      → next_index o ≡ some i
      → (z : A) × (get_elem? (x ∷ xs) i ≡ some z) × (test z ≡ true)
  behind test x xs none i rest e = absurd (ground (arith, e))
  behind test x xs (some j) zero rest e = absurd (ground (arith, e))
  behind test x xs (some j) (suc i) rest e = rest i (ground (arith, e))

  pub find_first-some :
      (test : A → Bool) (xs : List A) (i : ℕ)
      → find_first test xs ≡ some i
      → (x : A) × (get_elem? xs i ≡ some x) × (test x ≡ true)
  unfolding find_first
  find_first-some test [] i e = absurd (ground (arith, e))
  find_first-some test (x ∷ xs) i e = elim (Bool-cases (test x)) [
    | inl h ↦ at_head test x xs i h (ground (arith, e, h))
    | inr h ↦
        behind test x xs (find_first test xs) i (λ j f. find_first-some test xs j f)
          (ground (arith, e, h))
  ]

  pub total-modify_at :
      (w : A → ℕ) (f : A → A) (xs : List A) (i : ℕ) (x : A)
      → get_elem? xs i ≡ some x
      → total w (modify_at i f xs) + w x ≡ total w xs + w (f x)
  unfolding modify_at
  total-modify_at w f [] i x e = absurd (ground (arith, e))
  total-modify_at w f (y ∷ xs) zero x e =
      let same = some-injective _ _ e in omega (arith, ap w same, ap (λ k. w (f k)) same)
  total-modify_at w f (y ∷ xs) (suc i) x e = omega (arith, total-modify_at w f xs i x e)

  pub length-modify_at : (f : A → A) (xs : List A) (i : ℕ) → length (modify_at i f xs) ≡ length xs
  unfolding modify_at
  length-modify_at f [] i = refl
  length-modify_at f (y ∷ xs) zero = refl
  length-modify_at f (y ∷ xs) (suc i) = ap suc (length-modify_at f xs i)

  take_last :
      (w : A → ℕ) (y : A) (xs : List A) (last : A)
      → get_elem? (y ∷ xs) (length xs) ≡ some last
      → total w (take (length xs) (y ∷ xs)) + w last ≡ total w (y ∷ xs)
  take_last w y [] last l = omega (arith, ap w (some-injective _ _ l))
  take_last w y (z ∷ xs) last l = omega (arith, take_last w z xs last l)

  -- The array with the entry at i replaced, its last entry taken off.
  take-set :
      (w : A → ℕ) (y : A) (xs : List A) (i : ℕ) (x last : A)
      → get_elem? (y ∷ xs) i ≡ some x
      → get_elem? (y ∷ xs) (length xs) ≡ some last
      → total w (take (length xs) (set (y ∷ xs) i last)) + w x ≡ total w (y ∷ xs)
  take-set w y [] zero x last e l = omega (arith, ap w (some-injective _ _ e))
  take-set w y [] (suc i) x last e l = absurd (ground (arith, e))
  take-set w y (z ∷ xs) zero x last e l =
      omega (arith, ap w (some-injective _ _ e), take_last w z xs last l)
  take-set w y (z ∷ xs) (suc i) x last e l = omega (arith, take-set w z xs i x last e l)

  last_there : (y : A) (xs : List A) → (l : A) × (get_elem? (y ∷ xs) (length xs) ≡ some l)
  last_there y [] = (y, refl)
  last_there y (z ∷ xs) = last_there z xs

  -- A removal takes the entry's weight from the total, whatever entry moves.
  pub total-swap_remove :
      (w : A → ℕ) (xs : List A) (i : ℕ) (x : A)
      → get_elem? xs i ≡ some x
      → total w (swap_remove xs i) + w x ≡ total w xs
  unfolding swap_remove
  total-swap_remove w [] i x e = absurd (ground (arith, e))
  total-swap_remove w (y ∷ xs) i x e =
      let (l, at) = last_there y xs in
      let short : suc (length xs) - 1 ≡ length xs = omega arith in
      rw (short, at, short) (take-set w y xs i x l e at)

  -- A change that a test does not see leaves what the search finds.
  pub find_first-modify_at :
      (test : A → Bool) (f : A → A)
      → ((x : A) → test (f x) ≡ test x)
      → (xs : List A) (i : ℕ) → find_first test (modify_at i f xs) ≡ find_first test xs
  unfolding modify_at find_first
  find_first-modify_at test f h [] i = refl
  find_first-modify_at test f h (x ∷ xs) zero = rw (h x) refl
  find_first-modify_at test f h (x ∷ xs) (suc i) = rw (find_first-modify_at test f h xs i) refl
