-- ===== src/HandleCache/Defs.antt =====
-- src/margo-handle-cache.c: the cache of handles. An element is known by its address. What
-- Mercury and the allocator return is a parameter; so is the linked list of utlist.h.
use mochi_margo.Base.{
  ℕ, zero, suc, not, ◌==◌, if◌then◌else◌, update, null, Option, none, some, List, [], ◌∷◌,
}
use mochi_margo.Mercury.{HgReturn, success, nomem_error, other_error, is_success}

-- What the cache uses of a singly linked list: its head, LL_PREPEND and LL_DELETE.
pub record Ll : Type 1 where
  pub Links : Type 0
  pub empty : Links
  pub head : Links → ℕ
  pub prepend : Links → ℕ → Links
  pub delete : Links → ℕ → Links

-- `struct margo_handle_data`: the instance, the user's data and the callback that frees it, and
-- the back-pointer. The other fields are written together with the instance.
pub record HandleData : Type 0 where
  pub mid : ℕ
  pub user_data : ℕ
  pub user_free_callback : ℕ
  pub cache_el : ℕ

-- What the system gives while the cache is filled: for each round the element that `malloc`
-- returns, the code and the handle of HG_Create, what `calloc` returns, the code of HG_Set_data.
pub record Given : Type 0 where
  pub element : ℕ
  pub created : HgReturn
  pub handle : ℕ
  pub block : ℕ
  pub attached : HgReturn

-- The free list, the handle of each element, and the data attached to each handle, where the null
-- handle has none; `destroyed` are the handles that were given to HG_Destroy, `freed` the elements
-- and `called` the user's callbacks that ran, with their argument, the last one first.
pub record Cache (L : Ll) : Type 0 where
  pub free_handle_list : L.Links
  pub handles : ℕ → ℕ
  pub data_of : ℕ → Option HandleData
  pub destroyed : List ℕ
  pub freed : List ℕ
  pub called : List (ℕ × ℕ)

-- The back-pointer, and the call of the user's callback.
abbrev pub element_of : Option HandleData → ℕ
element_of none = null
element_of (some d) = d.cache_el

abbrev pub user_callback : Option HandleData → List (ℕ × ℕ) → List (ℕ × ℕ)
user_callback none called = called
user_callback (some d) called =
    if d.user_free_callback == null then called else (d.user_free_callback, d.user_data) ∷ called

module _ (L : Ll) where
  -- `__margo_handle_cache_destroy`; the fuel is the number of elements of the free list.
  unfoldable pub cache_destroy : (fuel : ℕ) → Cache L → Cache L
  cache_destroy zero s = s
  cache_destroy (suc fuel) s =
      let el = L.head s.free_handle_list in
      let rest = cache_destroy fuel (record s {
        free_handle_list = L.delete s.free_handle_list el;
        destroyed = s.handles el ∷ s.destroyed;
        freed = el ∷ s.freed;
      }) in
      if el == null then s else rest

  -- A round of the loop of `__margo_handle_cache_init`: the code, and the cache where the element
  -- was added or where what the round made was given back.
  unfoldable pub init_round : Given → Cache L → HgReturn × Cache L
  init_round g s =
      let s1 = record s { handles = update s.handles g.element g.handle } in
      let undone = record s1 { destroyed = g.handle ∷ s.destroyed; freed = g.element ∷ s.freed } in
      if g.element == null
      then (nomem_error, s)
      else if not (is_success g.created)
      then (g.created, record s { freed = g.element ∷ s.freed })
      else if g.block == null
      then (nomem_error, undone)
      else if not (is_success g.attached)
      then (g.attached, undone)
      else (
        success,
        record s1 {
          data_of = update s.data_of g.handle (
              some (record {
                mid = null;
                user_data = null;
                user_free_callback = null;
                cache_el = g.element;
              }));
          free_handle_list = L.prepend s.free_handle_list g.element;
        },
      )

  -- `__margo_handle_cache_init`, a round for each of the given; `count` elements are in the list.
  unfoldable pub cache_init : List Given → (count : ℕ) → Cache L → HgReturn × Cache L
  cache_init [] count s = (success, s)
  cache_init (g ∷ gs) count s =
      let (ret, t) = init_round g s in
      let rest = cache_init gs (suc count) t in
      if is_success ret then rest else (ret, cache_destroy count t)

  -- `__margo_handle_cache_get`, where HG_Reset gives the code `reset`; the handle is null where
  -- none is stored.
  unfoldable pub cache_get : (reset : ℕ → HgReturn) → Cache L → HgReturn × ℕ × Cache L
  cache_get reset s =
      let el = L.head s.free_handle_list in
      let t = record s { free_handle_list = L.delete s.free_handle_list el } in
      let ret = reset (s.handles el) in
      if el == null
      then (other_error, null, s)
      else if is_success ret
      then (ret, s.handles el, t)
      else (ret, null, record t { free_handle_list = L.prepend t.free_handle_list el })

  -- `__margo_handle_cache_put`
  unfoldable pub cache_put : Cache L → (handle : ℕ) → HgReturn × Cache L
  cache_put s handle =
      let el = element_of (s.data_of handle) in
      if el == null then (other_error, s) else (
        success,
        record s {
          data_of = update s.data_of handle (
              some (record {
                mid = null;
                user_data = null;
                user_free_callback = null;
                cache_el = el;
              }));
          called = user_callback (s.data_of handle) s.called;
          free_handle_list = L.prepend s.free_handle_list el;
        },
      )
