-- ===== src/Registry/Defs.antt =====
-- src/margo-abt-config.c: operations on an array of entries that is filled from the front.
use mochi_margo.Base.{
  ℕ, zero, suc, ◌-◌, Bool, Option, none, some, List, [], ◌∷◌, length, get_elem?, set, take,
  if◌then◌else◌,
}

abbrev pub next_index : Option ℕ → Option ℕ
next_index none = none
next_index (some i) = some (suc i)

module _ {ℓ} {A : Type ℓ} where
  -- The loop that returns the index of the first entry that passes a test; none is the result -1.
  unfoldable pub find_first : (A → Bool) → List A → Option ℕ
  find_first test [] = none
  find_first test (x ∷ xs) = if test x then some 0 else next_index (find_first test xs)

  -- A change of the entry at an index.
  unfoldable pub modify_at : ℕ → (A → A) → List A → List A
  modify_at i f [] = []
  modify_at zero f (x ∷ xs) = f x ∷ xs
  modify_at (suc i) f (x ∷ xs) = x ∷ modify_at i f xs

  -- `memcpy` of the last entry over the one at an index, and the array without its last entry.
  abbrev pub over_last : Option A → List A → ℕ → List A
  over_last none xs i = xs
  over_last (some last) xs i = take (length xs - 1) (set xs i last)

  unfoldable pub swap_remove : List A → ℕ → List A
  swap_remove xs i = over_last (get_elem? xs (length xs - 1)) xs i
