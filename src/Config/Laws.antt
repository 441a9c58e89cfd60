-- ===== src/Config/Laws.antt =====
-- src/margo-config.c: references to an entry, and the mutex.
use mathlib.Core.Option.{some-injective}
use mochi_margo.Mercury.{success, permission}
use mochi_margo.Base.Text.{same_text}
use mochi_margo.Base.{
  ℕ, zero, suc, ◌+◌, ◌-◌, ◌%◌, ◌^◌, ◌<◌, ◌≡◌, ◌↔◌, refl, ap, ◌∙◌, sym, subst, Bool, true, false,
  Bool-cases, ◌==◌, ltb, if◌then◌else◌, null, Option, none, some, Option-cases, inl, inr, List, [],
  ◌∷◌, length, get_elem?, arith,
}
use mochi_margo.Registry.Defs.{find_first, modify_at}
use mochi_margo.Registry.Totals.{find_first-modify_at, find_first-some, length-modify_at}
use mochi_margo.Config.Defs.{
  Slot, Key, by_handle, by_name, by_index, LockEvent, lock, unlock, Info, Place, unnamed, outside,
  absent, at_index, place, both_ways, locate, find, ref_count, ref_incr, release, one_ref_more,
  one_ref_less, answer, answer_at, release_at, incr_at, refused_events, release_entry,
}

module _ {A : Type 0} where
  pub get_elem?-modify_at :
      (f : A → A) (xs : List A) (i : ℕ) (x : A)
      → get_elem? xs i ≡ some x
      → get_elem? (modify_at i f xs) i ≡ some (f x)
  unfolding modify_at
  get_elem?-modify_at f [] i x e = absurd (ground (arith, e))
  get_elem?-modify_at f (y ∷ xs) zero x e = ap (λ z. some (f z)) (some-injective _ _ e)
  get_elem?-modify_at f (y ∷ xs) (suc i) x e = get_elem?-modify_at f xs i x e

  -- A change and its reverse.
  pub modify_at-modify_at :
      (f g : A → A) (xs : List A) (i : ℕ) (x : A)
      → get_elem? xs i ≡ some x
      → g (f x) ≡ x
      → modify_at i g (modify_at i f xs) ≡ xs
  unfolding modify_at
  modify_at-modify_at f g [] i x e b = refl
  modify_at-modify_at f g (y ∷ xs) zero x e b =
      let same = some-injective _ _ e in ap (λ z. z ∷ xs) (ap (λ z. g (f z)) same ∙ b ∙ sym same)
  modify_at-modify_at f g (y ∷ xs) (suc i) x e b =
      ap (λ l. y ∷ l) (modify_at-modify_at f g xs i x e b)

  pub there : (xs : List A) (i : ℕ) → i < length xs → (x : A) × (get_elem? xs i ≡ some x)
  there [] i h = absurd (omega (arith, h))
  there (x ∷ xs) zero h = (x, refl)
  there (x ∷ xs) (suc i) h = there xs i (omega (arith, h))

  pub below_length : (xs : List A) (i : ℕ) (x : A) → get_elem? xs i ≡ some x → i < length xs
  below_length [] i x e = absurd (ground (arith, e))
  below_length (y ∷ xs) zero x e = omega arith
  below_length (y ∷ xs) (suc i) x e = omega (arith, below_length xs i x e)

module _ {A : Type 0} (S : Slot A) where
  -- A place is of an entry.
  placed :
      (test : A → Bool) (xs : List A) (i : ℕ)
      → place (find_first test xs) ≡ at_index i
      → (x : A) × (get_elem? xs i ≡ some x)
  placed test xs i e = elim (Option-cases (find_first test xs)) [
    | inl n ↦ absurd (ground (arith, e, n))
    | inr (j, f) ↦ let (x, at, _) = find_first-some test xs i (ground (arith, e, f)) in (x, at)
  ]

  pub located :
      (xs : List A) (k : Key) (i : ℕ)
      → locate S xs k ≡ at_index i
      → (x : A) × (get_elem? xs i ≡ some x)
  unfolding locate
  located xs (by_handle h) i e =
      placed (λ x. S.handle x == h) xs i
        (elim (Bool-cases (h == null)) [
          | inl y ↦ absurd (ground (arith, e, y))
          | inr n ↦ ground (arith, e, n)
        ])
  located xs (by_name none) i e = absurd (ground (arith, e))
  located xs (by_name (some name)) i e = placed (λ x. same_text (S.name x) name) xs i e
  located xs (by_index j) i e = there xs i (ground (arith, e))

  pub locate-modify_at :
      (c : A → ℕ) (xs : List A) (k : Key) (i : ℕ)
      → locate S (modify_at i (λ x. S.with_refcount (c x) x) xs) k ≡ locate S xs k
  unfolding locate
  locate-modify_at c xs (by_handle h) i =
      rw
        (find_first-modify_at (λ x. S.handle x == h) (λ x. S.with_refcount (c x) x)
          (λ x. ap (λ n. n == h) (S.handle-with (c x) x)) xs i)
        refl
  locate-modify_at c xs (by_name none) i = refl
  locate-modify_at c xs (by_name (some name)) i =
      rw
        (find_first-modify_at (λ x. same_text (S.name x) name) (λ x. S.with_refcount (c x) x)
          (λ x. ap (λ n. same_text n name) (S.name-with (c x) x)) xs i)
        refl
  locate-modify_at c xs (by_index j) i =
      rw (length-modify_at (λ x. S.with_refcount (c x) x) xs i) refl

  pub one_and_back : (x : A) → S.refcount x + 1 < 2 ^ 32 → one_ref_less S (one_ref_more S x) ≡ x
  one_and_back x h =
      let count : S.refcount (one_ref_more S x) - 1 ≡ S.refcount x =
        omega (arith, S.refcount-with ((S.refcount x + 1) % 2 ^ 32) x, h) in
      S.with-with (S.refcount (one_ref_more S x) - 1) ((S.refcount x + 1) % 2 ^ 32) x
      ∙ ap (λ c. S.with_refcount c x) count
      ∙ S.with-same x

  -- Where a reference was added.
  pub incr_place :
      (xs ys : List A) (k : Key) (t : List LockEvent)
      → ref_incr S (some xs) k ≡ (success, some ys, t)
      → (i : ℕ) × (locate S xs k ≡ at_index i)
        × (ys ≡ modify_at i (one_ref_more S) xs)
        × (t ≡ lock ∷ unlock ∷ [])
  unfolding ref_incr
  incr_place xs ys k t e = place_of (locate S xs k) e
    where
      place_of :
          (p : Place)
          → incr_at S xs p ≡ (success, some ys, t)
          → (i : ℕ) × (p ≡ at_index i)
            × (ys ≡ modify_at i (one_ref_more S) xs)
            × (t ≡ lock ∷ unlock ∷ [])
      place_of unnamed e = absurd (ground (arith, e))
      place_of outside e = absurd (ground (arith, e))
      place_of absent e = absurd (ground (arith, e))
      place_of (at_index i) e = (i, refl, ground (arith, e), sym (ap (λ r. r.2) e))

-- A reference that is added and released, by the same key, leaves the entries as they were, unless
-- the number of references of an entry wraps around; in between, the number of references of the
-- entry is one more; and each of the calls takes the mutex once and gives it back once.
pub ref_incr-release :
    {A : Type 0} (S : Slot A) (xs ys : List A) (k : Key) (t : List LockEvent)
    → ((i : ℕ) (x : A) → get_elem? xs i ≡ some x → S.refcount x + 1 < 2 ^ 32)
    → ref_incr S (some xs) k ≡ (success, some ys, t)
    → (n : ℕ) × (t ≡ lock ∷ unlock ∷ [])
      × (ref_count S (some xs) k ≡ (success, some n, lock ∷ unlock ∷ []))
      × (ref_count S (some ys) k ≡ (success, some (n + 1), lock ∷ unlock ∷ []))
      × (release S (some ys) k ≡ (success, some xs, lock ∷ unlock ∷ []))
unfolding ref_count release
ref_incr-release S xs ys k t small e =
    let (i, where_it_is, changed, once) = incr_place S xs ys k t e in
    let (x, at) = located S xs k i where_it_is in
    let count : S.refcount (one_ref_more S x) ≡ S.refcount x + 1 =
      omega (arith, S.refcount-with ((S.refcount x + 1) % 2 ^ 32) x, small i x at) in
    let some_ref : (S.refcount (one_ref_more S x) == 0) ≡ false = ground (arith, count) in
    let same_place : locate S ys k ≡ at_index i =
      ap (λ l. locate S l k) changed
      ∙ locate-modify_at S (λ y. (S.refcount y + 1) % 2 ^ 32) xs k i
      ∙ where_it_is in
    let more : get_elem? ys i ≡ some (one_ref_more S x) =
      ap (λ l. get_elem? l i) changed ∙ get_elem?-modify_at (one_ref_more S) xs i x at in
    let back : modify_at i (one_ref_less S) ys ≡ xs =
      ap (modify_at i (one_ref_less S)) changed
      ∙ modify_at-modify_at (one_ref_more S) (one_ref_less S) xs i x at
          (one_and_back S x (small i x at)) in
    (
      S.refcount x,
      once,
      rw (where_it_is, at) refl,
      rw (same_place, more) (ap (λ n. (success, some n, both_ways)) count),
      rw (same_place, more, some_ref) (ap (λ l. (success, some l, both_ways)) back),
    )

-- The searches of the functions by handle and by name.
abbrev pub searches : Key → Bool
searches (by_index i) = false
searches _ = true

-- A release gives the mutex back twice just where it is refused because the entry that it searched
-- for, by handle or by name, has no references.
pub release_unlocks_twice :
    {A : Type 0} (S : Slot A) (xs : List A) (k : Key)
    → ((release S (some xs) k).2 ≡ lock ∷ unlock ∷ unlock ∷ [])
      ↔ (((release S (some xs) k).0 ≡ permission) × (searches k ≡ true))
unfolding release
release_unlocks_twice S xs k = twice (locate S xs k)
  where
    refused :
        (k : Key)
        → (refused_events S k ≡ lock ∷ unlock ∷ unlock ∷ [])
          ↔ ((permission ≡ permission) × (searches k ≡ true))
    refused (by_handle h) = (λ e. (refl, refl), λ e. refl)
    refused (by_name name) = (λ e. (refl, refl), λ e. refl)
    refused (by_index i) = (λ e. absurd (ground (arith, e)), λ e. absurd (ground (arith, e)))

    entry :
        (i : ℕ) (o : Option _)
        → ((release_entry S k xs i o).2 ≡ lock ∷ unlock ∷ unlock ∷ [])
          ↔ (((release_entry S k xs i o).0 ≡ permission) × (searches k ≡ true))
    entry i none = (λ e. absurd (ground (arith, e)), λ e. absurd (ground (arith, e)))
    entry i (some x) = elim (Bool-cases (S.refcount x == 0)) [
      | inl y ↦ rw y (refused k)
      | inr n ↦ rw n (λ e. absurd (ground (arith, e)), λ e. absurd (ground (arith, e)))
    ]

    twice :
        (p : Place)
        → ((release_at S k xs p).2 ≡ lock ∷ unlock ∷ unlock ∷ [])
          ↔ (((release_at S k xs p).0 ≡ permission) × (searches k ≡ true))
    twice unnamed = (λ e. absurd (ground (arith, e)), λ e. absurd (ground (arith, e)))
    twice outside = (λ e. absurd (ground (arith, e)), λ e. absurd (ground (arith, e)))
    twice absent = (λ e. absurd (ground (arith, e)), λ e. absurd (ground (arith, e)))
    twice (at_index i) = entry i (get_elem? xs i)

-- What a search finds by handle or name is what the index in its answer leads to.
pub find-find :
    {A : Type 0} (S : Slot A) (xs : List A) (k : Key) (info : Info) (t : List LockEvent)
    → find S (some xs) k ≡ (success, some info, t)
    → find S (some xs) (by_index info.index) ≡ (success, some info, both_ways)
unfolding find locate
find-find {A} S xs k info t e = same (locate S xs k) e
  where
    describe : ℕ → A → Info
    describe i x = record { index = i; name = S.name x; handle = S.handle x }

    inside :
        (i : ℕ) (o : Option A)
        → get_elem? xs i ≡ o
        → answer_at S describe i o ≡ some info
        → answer S describe xs (if ltb info.index (length xs) then at_index info.index else outside)
          ≡ (success, some info, both_ways)
    inside i none at e = absurd (ground (arith, e))
    inside i (some x) at e =
        let within : ltb i (length xs) ≡ true = ground (arith, below_length xs i x at) in
        let own : answer S describe xs (if ltb i (length xs) then at_index i else outside)
            ≡ (success, some (describe i x), both_ways) =
          rw (within, at) refl in
        subst
          (λ d.
            answer S describe xs (if ltb d.index (length xs) then at_index d.index else outside)
            ≡ (success, some d, both_ways))
          (some-injective _ _ e) own

    same :
        (p : Place)
        → answer S describe xs p ≡ (success, some info, t)
        → answer S describe xs (if ltb info.index (length xs) then at_index info.index else outside)
          ≡ (success, some info, both_ways)
    same unnamed e = absurd (ground (arith, e))
    same outside e = absurd (ground (arith, e))
    same absent e = absurd (ground (arith, e))
    same (at_index i) e = inside i (get_elem? xs i) refl (ground (arith, e))
