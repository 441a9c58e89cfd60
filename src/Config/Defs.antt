-- ===== src/Config/Defs.antt =====
-- src/margo-config.c: finding, referencing and releasing an entry, for pools and for execution
-- streams alike. A call is its result and what it does to the mutex.
use Prim.Native.String.{String}
use mochi_margo.Mercury.{HgReturn, success, invalid_arg, noentry, permission}
use mochi_margo.Base.Text.{same_text}
use mochi_margo.Base.{
  ℕ, ◌+◌, ◌-◌, ◌%◌, ◌^◌, ◌≡◌, refl, ◌==◌, ltb, if◌then◌else◌, null, Option, none, some, List, [],
  ◌∷◌, length, get_elem?,
}
use mochi_margo.Registry.Defs.{find_first, modify_at}
use mochi_margo.AbtConfig.Entries.{PoolEntry, XstreamEntry}

-- What an entry keeps: its handle, its name and the number of references, with their laws.
pub record Slot (A : Type 0) : Type 0 where
  pub handle : A → ℕ
  pub name : A → String
  pub refcount : A → ℕ
  pub with_refcount : ℕ → A → A
  pub handle-with : (c : ℕ) (x : A) → handle (with_refcount c x) ≡ handle x
  pub name-with : (c : ℕ) (x : A) → name (with_refcount c x) ≡ name x
  pub refcount-with : (c : ℕ) (x : A) → refcount (with_refcount c x) ≡ c
  pub with-with : (c d : ℕ) (x : A) → with_refcount c (with_refcount d x) ≡ with_refcount c x
  pub with-same : (x : A) → with_refcount (refcount x) x ≡ x

abbrev pub pool_slot : Slot PoolEntry
pool_slot = record {
  handle = λ p. p.pool;
  name = λ p. p.name;
  refcount = λ p. p.refcount;
  with_refcount = λ c p. record p { refcount = c };
  handle-with = λ c p. refl;
  name-with = λ c p. refl;
  refcount-with = λ c p. refl;
  with-with = λ c d p. refl;
  with-same = λ p. refl;
}

abbrev pub xstream_slot : Slot XstreamEntry
xstream_slot = record {
  handle = λ x. x.xstream;
  name = λ x. x.name;
  refcount = λ x. x.refcount;
  with_refcount = λ c x. record x { refcount = c };
  handle-with = λ c x. refl;
  name-with = λ c x. refl;
  refcount-with = λ c x. refl;
  with-with = λ c d x. refl;
  with-same = λ x. refl;
}

-- How a caller names an entry; a null name is none.
pub data Key : Type 0 where
  by_handle : ℕ → Key
  by_name : Option String → Key
  by_index : ℕ → Key

pub data LockEvent : Type 0 where
  lock unlock : LockEvent

-- `struct margo_pool_info` and `struct margo_xstream_info`
pub record Info : Type 0 where
  pub index : ℕ
  pub name : String
  pub handle : ℕ

-- Where a key leads: to a null argument, which is seen before the mutex is taken; to an index out of
-- range; to no entry; or to an entry.
pub data Place : Type 0 where
  unnamed outside absent : Place
  at_index : ℕ → Place

abbrev pub place : Option ℕ → Place
place none = absent
place (some i) = at_index i

-- What a call returns, with the mutex taken and given back around it.
abbrev pub both_ways : List LockEvent
both_ways = lock ∷ unlock ∷ []

module _ {A : Type 0} (S : Slot A) where
  -- The search of the functions by handle, by name and by index.
  unfoldable pub locate : List A → Key → Place
  locate xs (by_handle h) =
      if h == null then unnamed else place (find_first (λ x. S.handle x == h) xs)
  locate xs (by_name none) = unnamed
  locate xs (by_name (some name)) = place (find_first (λ x. same_text (S.name x) name) xs)
  locate xs (by_index i) = if ltb i (length xs) then at_index i else outside

  -- An answer from the entry at a place.
  abbrev pub answer_at : {B : Type 0} → (ℕ → A → B) → ℕ → Option A → Option B
  answer_at f i none = none
  answer_at f i (some x) = some (f i x)

  abbrev pub answer :
      {B : Type 0} → (ℕ → A → B) → List A → Place → HgReturn × Option B × List LockEvent
  answer f xs unnamed = (invalid_arg, none, [])
  answer f xs outside = (invalid_arg, none, both_ways)
  answer f xs absent = (noentry, none, both_ways)
  answer f xs (at_index i) = (success, answer_at f i (get_elem? xs i), both_ways)

  -- `margo_find_..._by_...` with a place for the information.
  unfoldable pub find : Option (List A) → Key → HgReturn × Option Info × List LockEvent
  unfolding locate
  find none k = (invalid_arg, none, [])
  find (some xs) k =
      answer (λ i x. record { index = i; name = S.name x; handle = S.handle x }) xs (locate xs k)

  -- `margo_..._ref_count_by_...`
  unfoldable pub ref_count : Option (List A) → Key → HgReturn × Option ℕ × List LockEvent
  unfolding locate
  ref_count none k = (invalid_arg, none, [])
  ref_count (some xs) k = answer (λ i x. S.refcount x) xs (locate xs k)

  -- `refcount++` and `refcount--`, on words of 32 bits.
  abbrev pub one_ref_more : A → A
  one_ref_more x = S.with_refcount ((S.refcount x + 1) % 2 ^ 32) x

  abbrev pub one_ref_less : A → A
  one_ref_less x = S.with_refcount (S.refcount x - 1) x

  abbrev pub incr_at : List A → Place → HgReturn × Option (List A) × List LockEvent
  incr_at xs unnamed = (invalid_arg, some xs, [])
  incr_at xs outside = (invalid_arg, some xs, both_ways)
  incr_at xs absent = (noentry, some xs, both_ways)
  incr_at xs (at_index i) = (success, some (modify_at i one_ref_more xs), both_ways)

  -- `margo_..._ref_incr_by_...`
  unfoldable pub ref_incr : Option (List A) → Key → HgReturn × Option (List A) × List LockEvent
  unfolding locate
  ref_incr none k = (invalid_arg, none, [])
  ref_incr (some xs) k = incr_at xs (locate xs k)

  -- Whether the mutex is given back a second time, behind the loop, where there is no reference: by
  -- handle and by name.
  abbrev pub refused_events : Key → List LockEvent
  refused_events (by_index i) = both_ways
  refused_events _ = lock ∷ unlock ∷ unlock ∷ []

  abbrev pub release_entry :
      Key → List A → ℕ → Option A → HgReturn × Option (List A) × List LockEvent
  release_entry k xs i none = (success, some xs, both_ways)
  release_entry k xs i (some x) =
      if S.refcount x == 0
      then (permission, some xs, refused_events k)
      else (success, some (modify_at i one_ref_less xs), both_ways)

  abbrev pub release_at : Key → List A → Place → HgReturn × Option (List A) × List LockEvent
  release_at k xs unnamed = (invalid_arg, some xs, [])
  release_at k xs outside = (invalid_arg, some xs, both_ways)
  release_at k xs absent = (noentry, some xs, both_ways)
  release_at k xs (at_index i) = release_entry k xs i (get_elem? xs i)

  -- `margo_..._release_by_...`
  unfoldable pub release : Option (List A) → Key → HgReturn × Option (List A) × List LockEvent
  unfolding locate
  release none k = (invalid_arg, none, [])
  release (some xs) k = release_at k xs (locate xs k)
