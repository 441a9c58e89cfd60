-- ===== src/HandleCache/Tests.antt =====
-- src/margo-handle-cache.c: the cache at concrete inputs, with lists in place of linked nodes.
use mochi_margo.Base.{ℕ, ◌+◌, ◌≡◌, refl, ◌==◌, if◌then◌else◌, none, some, List, [], ◌∷◌, arith}
use mochi_margo.Mercury.{success}
use mochi_margo.HandleCache.Defs.{Ll, HandleData, Cache, cache_put}
use mochi_margo.HandleCache.Laws.{first_of, LlLaws, resting, IsCache, put_returns}

abbrev remove : List ℕ → ℕ → List ℕ
remove [] p = []
remove (u ∷ us) p = if u == p then us else u ∷ remove us p

abbrev lists : Ll
lists = record {
  Links = List ℕ;
  empty = [];
  head = first_of;
  prepend = λ l p. p ∷ l;
  delete = remove;
}

remove_head : (p : ℕ) (ws : List ℕ) → remove (p ∷ ws) p ≡ ws
remove_head p ws = ground arith

abbrev lists_laws : LlLaws lists
lists_laws = record {
  contents = λ l. l;
  contents-empty = refl;
  head_of = λ l. refl;
  contents-prepend = λ l p o. refl;
  contents-delete_head = λ l p ws e. rw e (remove_head p ws);
}

-- Elements 1 and 2 wait with the handles 101 and 102; 103 is out, with data of the user.
abbrev lent : HandleData
lent = record { mid = 7; user_data = 55; user_free_callback = 66; cache_el = 3 }

abbrev cache : Cache lists
cache = record {
  free_handle_list = 1 ∷ 2 ∷ [];
  handles = λ u. 100 + u;
  data_of = λ h.
      if h == 103
      then some lent
      else if h == 101
      then some (resting 1)
      else if h == 102
      then some (resting 2)
      else none;
  destroyed = [];
  freed = [];
  called = [];
}

cache-IsCache : IsCache lists lists_laws cache (1 ∷ 2 ∷ [])
cache-IsCache = record {
  contents = refl;
  distinct = ((omega arith, tt), (tt, tt));
  nonnull = (omega arith, (omega arith, tt));
  handles = ((omega arith, tt), (tt, tt));
  resting_data = (refl, (refl, tt));
}

put_returns_example :
    (t : Cache lists) × (cache_put lists cache 103 ≡ (success, t))
    × IsCache lists lists_laws t (3 ∷ 1 ∷ 2 ∷ [])
    × (t.called ≡ (66, 55) ∷ [])
put_returns_example =
    put_returns lists lists_laws cache (1 ∷ 2 ∷ []) 3 lent cache-IsCache (omega arith)
      (omega arith, (omega arith, tt)) (omega arith, (omega arith, tt)) refl refl
