-- ===== src/Callbacks/Tests.antt =====
-- src/margo-core.c: the theorems at concrete lists of callbacks.
use mochi_margo.Base.{ℕ, ◌≡◌, ◌≢◌, List, [], ◌∷◌, some, arith}
use mochi_margo.Callbacks.Defs.{Callback, push, top, pop, call_all}
use mochi_margo.Callbacks.Laws.{view, head, tail, has_some, stacks_refine, call_all_calls}

-- Callbacks of the owners 1 and 2.
abbrev callbacks : List Callback
callbacks =
    record { owner = 2; callback = 30; uargs = 5 }
    ∷ record { owner = 1; callback = 20; uargs = 4 }
    ∷ []

stacks_refine_example :
    (view 1 (push callbacks 1 40 6) ≡ (40, 6) ∷ view 1 callbacks)
    × (top callbacks 1 ≡ head (view 1 callbacks))
    × ((pop callbacks 1).0 ≡ has_some (view 1 callbacks))
    × (view 1 (pop callbacks 1).1 ≡ tail (view 1 callbacks))
    × ((other : ℕ)
        → other ≢ 1
        → (view other (push callbacks 1 40 6) ≡ view other callbacks)
          × (view other (pop callbacks 1).1 ≡ view other callbacks))
stacks_refine_example = stacks_refine callbacks 1 40 6 (omega arith)

-- The last one that was added is called first.
both_called : call_all (λ c cs. cs) 3 callbacks ≡ some callbacks
both_called = call_all_calls 3 callbacks (omega arith)
