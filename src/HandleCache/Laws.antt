-- ===== src/HandleCache/Laws.antt =====
-- src/margo-handle-cache.c: which handles the cache gives, and how they come back.
use mochi_margo.Base.Nodes.{NotIn, Distinct}
use mochi_margo.Base.{
  ℕ, ◌≡◌, ◌≢◌, inl, inr, refl, ap, ◌∙◌, sym, subst, true, false, ◌==◌, if◌then◌else◌, update, null,
  Option, some, List, [], ◌∷◌, map, arith, Bool-cases,
}
use mochi_margo.Mercury.{HgReturn, success, other_error, is_success}
use mochi_margo.HandleCache.Defs.{Ll, HandleData, Cache, cache_get, cache_put, user_callback}

abbrev pub first_of : List ℕ → ℕ
first_of [] = null
first_of (u ∷ us) = u

-- What utlist.h documents of a singly linked list.
pub record LlLaws (L : Ll) : Type 0 where
  pub contents : L.Links → List ℕ
  pub contents-empty : contents L.empty ≡ []
  pub head_of : (l : L.Links) → L.head l ≡ first_of (contents l)
  pub contents-prepend :
      (l : L.Links) (p : ℕ) → NotIn p (contents l) → contents (L.prepend l p) ≡ p ∷ contents l
  pub contents-delete_head :
      (l : L.Links) (p : ℕ) (ws : List ℕ) → contents l ≡ p ∷ ws → contents (L.delete l p) ≡ ws

-- The data of a handle that waits in the cache: nothing but the back-pointer.
abbrev pub resting : ℕ → HandleData
resting el = record { mid = null; user_data = null; user_free_callback = null; cache_el = el }

abbrev pub AllResting : (ℕ → Option HandleData) → (ℕ → ℕ) → List ℕ → Type 0
AllResting data_of handles [] = Unit {0}
AllResting data_of handles (u ∷ us) =
    (data_of (handles u) ≡ some (resting u)) × AllResting data_of handles us

-- The elements of the list wait in the cache, each of them with a handle of its own.
pub record IsCache (L : Ll) (W : LlLaws L) (s : Cache L) (us : List ℕ) : Type 0 where
  pub contents : W.contents s.free_handle_list ≡ us
  pub distinct : Distinct us
  pub nonnull : NotIn null us
  pub handles : Distinct (map s.handles us)
  pub resting_data : AllResting s.data_of s.handles us

AllResting-update :
    (data_of : ℕ → Option HandleData) (handles : ℕ → ℕ) (h : ℕ) (d : Option HandleData)
    (us : List ℕ)
    → NotIn h (map handles us)
    → AllResting data_of handles us
    → AllResting (update data_of h d) handles us
AllResting-update data_of handles h d [] o a = tt
AllResting-update data_of handles h d (u ∷ us) o a =
    let away = o.0 in (ground (arith, away) ∙ a.0, AllResting-update data_of handles h d us o.1 a.1)

module _ (L : Ll) (s : Cache L) where
  get_hit :
      (reset : ℕ → HgReturn) (u : ℕ)
      → L.head s.free_handle_list ≡ u
      → u ≢ null
      → is_success (reset (s.handles u)) ≡ true
      → cache_get L reset s ≡ (
        reset (s.handles u),
        s.handles u,
        record s { free_handle_list = L.delete s.free_handle_list u },
      )
  unfolding cache_get
  get_hit reset u e n h = ground (arith, e, n, h)

  get_failed :
      (reset : ℕ → HgReturn) (u : ℕ)
      → L.head s.free_handle_list ≡ u
      → u ≢ null
      → is_success (reset (s.handles u)) ≡ false
      → cache_get L reset s ≡ (
        reset (s.handles u),
        null,
        record s { free_handle_list = L.prepend (L.delete s.free_handle_list u) u },
      )
  unfolding cache_get
  get_failed reset u e n h = ground (arith, e, n, h)

  get_empty :
      (reset : ℕ → HgReturn)
      → L.head s.free_handle_list ≡ null
      → cache_get L reset s ≡ (other_error, null, s)
  unfolding cache_get
  get_empty reset e = ground (arith, e)

-- What a get gives: the code, the handle or null, and the elements that wait from then on.
abbrev pub got : (reset : ℕ → HgReturn) → (handles : ℕ → ℕ) → List ℕ → HgReturn × ℕ × List ℕ
got reset handles [] = (other_error, null, [])
got reset handles (u ∷ us) =
    if is_success (reset (handles u))
    then (reset (handles u), handles u, us)
    else (reset (handles u), null, u ∷ us)

pub record Got (L : Ll) (W : LlLaws L) (s : Cache L) (g : HgReturn × ℕ × List ℕ)
    (r : HgReturn × ℕ × Cache L) : Type 0 where
  pub code : r.0 ≡ g.0
  pub handle : r.1 ≡ g.1
  pub valid : IsCache L W r.2 g.2
  pub same_data : r.2.data_of ≡ s.data_of
  pub same_handles : r.2.handles ≡ s.handles

module _ (L : Ll) (W : LlLaws L) where
  -- `__margo_handle_cache_get` gives the handle of the element that was put back last, and keeps
  -- the others, if HG_Reset succeeds on it. If HG_Reset fails the cache gives that code and keeps
  -- all its elements, in their order, and if it has none it gives HG_OTHER_ERROR.
  pub get_gives :
      (s : Cache L) (us : List ℕ) (reset : ℕ → HgReturn)
      → IsCache L W s us
      → Got L W s (got reset s.handles us) (cache_get L reset s)
  get_gives s [] reset v =
      rw (get_empty L s reset (W.head_of s.free_handle_list ∙ ap first_of v.contents))
        (record { code = refl; handle = refl; valid = v; same_data = refl; same_handles = refl })
  get_gives s (u ∷ us) reset v =
      let head = W.head_of s.free_handle_list ∙ ap first_of v.contents in
      let gone = W.contents-delete_head s.free_handle_list u us v.contents in
      elim (Bool-cases (is_success (reset (s.handles u)))) [
        | inl h ↦
            rw (get_hit L s reset u head v.nonnull.0 h, h)
              (record {
                code = refl;
                handle = refl;
                valid = record {
                  contents = gone;
                  distinct = v.distinct.1;
                  nonnull = v.nonnull.1;
                  handles = v.handles.1;
                  resting_data = v.resting_data.1;
                };
                same_data = refl;
                same_handles = refl;
              })
        | inr h ↦
            rw (get_failed L s reset u head v.nonnull.0 h, h)
              (record {
                code = refl;
                handle = refl;
                valid = record {
                  contents =
                      W.contents-prepend (L.delete s.free_handle_list u) u
                        (subst (NotIn u) (sym gone) v.distinct.0)
                      ∙ ap (λ k. u ∷ k) gone;
                  distinct = v.distinct;
                  nonnull = v.nonnull;
                  handles = v.handles;
                  resting_data = v.resting_data;
                };
                same_data = refl;
                same_handles = refl;
              })
      ]

put_back :
    (L : Ll) (s : Cache L) (h u : ℕ) (d : HandleData)
    → u ≢ null
    → s.data_of h ≡ some d
    → d.cache_el ≡ u
    → cache_put L s h ≡ (
      success,
      record s {
        data_of = update s.data_of h (some (resting u));
        called = user_callback (some d) s.called;
        free_handle_list = L.prepend s.free_handle_list u;
      },
    )
unfolding cache_put
put_back L s h u d n e f = rw (e, f) (ground (arith, n))

-- A handle with a back-pointer to its element, both not among those that wait, is put back: whatever the user attached
-- to it, its element waits again, ahead of the others, its data hold nothing but the back-pointer,
-- and the user's callback ran once, on the user's data, if there was one.
pub put_returns :
    (L : Ll) (W : LlLaws L) (s : Cache L) (us : List ℕ) (u : ℕ) (d : HandleData)
    → IsCache L W s us
    → u ≢ null
    → NotIn u us
    → NotIn (s.handles u) (map s.handles us)
    → s.data_of (s.handles u) ≡ some d
    → d.cache_el ≡ u
    → (t : Cache L) × (cache_put L s (s.handles u) ≡ (success, t))
      × IsCache L W t (u ∷ us)
      × (t.called ≡ (
          if d.user_free_callback == null
          then s.called
          else (d.user_free_callback, d.user_data) ∷ s.called))
put_returns L W s us u d v n o apart e f =
    let here : update s.data_of (s.handles u) (some (resting u)) (s.handles u) ≡ some (resting u) =
      ground arith in
    (
      record s {
        data_of = update s.data_of (s.handles u) (some (resting u));
        called = user_callback (some d) s.called;
        free_handle_list = L.prepend s.free_handle_list u;
      },
      put_back L s (s.handles u) u d n e f,
      record {
        contents =
            W.contents-prepend s.free_handle_list u (subst (NotIn u) (sym v.contents) o)
            ∙ ap (λ k. u ∷ k) v.contents;
        distinct = (o, v.distinct);
        nonnull = (n, v.nonnull);
        handles = (apart, v.handles);
        resting_data = (
          here,
          AllResting-update s.data_of s.handles (s.handles u) (some (resting u)) us apart
              v.resting_data,
        );
      },
      refl,
    )
