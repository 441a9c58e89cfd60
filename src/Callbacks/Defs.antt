-- ===== src/Callbacks/Defs.antt =====
-- src/margo-core.c: the two lists of callbacks of an instance, in which every owner has a stack of
-- its own. Owners, functions and arguments are addresses; the default owner is null.
use mochi_margo.Base.{
  ℕ, zero, suc, Bool, true, false, ◌==◌, if◌then◌else◌, null, Option, none, some, List, [], ◌∷◌,
}

-- `struct margo_finalize_cb`
pub record Callback : Type 0 where
  pub owner : ℕ
  pub callback : ℕ
  pub uargs : ℕ

-- A callback in front of the list, unless the function is null.
unfoldable pub push : List Callback → (owner callback uargs : ℕ) → List Callback
push cbs owner callback uargs =
    if callback == null
    then cbs
    else record { owner = owner; callback = callback; uargs = uargs } ∷ cbs

-- The first callback of an owner: its function and argument, none where the result is 0.
unfoldable pub top : List Callback → (owner : ℕ) → Option (ℕ × ℕ)
top [] owner = none
top (c ∷ cs) owner = if c.owner == owner then some (c.callback, c.uargs) else top cs owner

-- The list without it, and whether the result is 1.
abbrev pub behind : Callback → Bool × List Callback → Bool × List Callback
behind c (found, cs) = (found, c ∷ cs)

unfoldable pub pop : List Callback → (owner : ℕ) → Bool × List Callback
pop [] owner = (false, [])
pop (c ∷ cs) owner =
    let rest = pop cs owner in if c.owner == owner then (true, cs) else behind c rest

-- The loop that takes the first callback off the list, calls it, and goes on with the list that it
-- leaves: the callbacks that were called. `effect` is what a call does to the list.
abbrev pub after : Callback → Option (List Callback) → Option (List Callback)
after c none = none
after c (some called) = some (c ∷ called)

unfoldable pub call_all :
    (effect : Callback → List Callback → List Callback)
    → (fuel : ℕ) → List Callback
    → Option (List Callback)
call_all effect zero cbs = none
call_all effect (suc fuel) [] = some []
call_all effect (suc fuel) (c ∷ cs) = after c (call_all effect fuel (effect c cs))

-- The lists of an instance.
pub record Lists : Type 0 where
  pub prefinalize_cb : List Callback
  pub finalize_cb : List Callback

-- `margo_provider_push_prefinalize_callback`, `margo_provider_top_prefinalize_callback` and
-- `margo_provider_pop_prefinalize_callback`
unfoldable pub push_prefinalize : Lists → (owner callback uargs : ℕ) → Lists
unfolding push
push_prefinalize l owner callback uargs = record l {
  prefinalize_cb = push l.prefinalize_cb owner callback uargs;
}

unfoldable pub top_prefinalize : Lists → (owner : ℕ) → Option (ℕ × ℕ)
unfolding top
top_prefinalize l owner = top l.prefinalize_cb owner

unfoldable pub pop_prefinalize : Lists → (owner : ℕ) → Bool × Lists
unfolding pop
pop_prefinalize l owner =
    let r = pop l.prefinalize_cb owner in (r.0, record l { prefinalize_cb = r.1 })

-- `margo_provider_push_finalize_callback`, `margo_provider_top_finalize_callback` and
-- `margo_provider_pop_finalize_callback`
unfoldable pub push_finalize : Lists → (owner callback uargs : ℕ) → Lists
unfolding push
push_finalize l owner callback uargs = record l {
  finalize_cb = push l.finalize_cb owner callback uargs;
}

unfoldable pub top_finalize : Lists → (owner : ℕ) → Option (ℕ × ℕ)
unfolding top
top_finalize l owner = top l.finalize_cb owner

unfoldable pub pop_finalize : Lists → (owner : ℕ) → Bool × Lists
unfolding pop
pop_finalize l owner = let r = pop l.finalize_cb owner in (r.0, record l { finalize_cb = r.1 })
