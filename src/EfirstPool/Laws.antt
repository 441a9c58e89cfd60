-- ===== src/EfirstPool/Laws.antt =====
-- src/margo-efirst-pool.c: the pool made of the heap and the FIFO list.
use mathlib.Core.Path.{fun_ext}
use mochi_margo.Base.{ℕ, ◌+◌, ◌≤◌, ◌≡◌, ◌≢◌, refl, ◌∙◌, sym, List, [], ◌∷◌, ◌++◌, arith, null}
use mochi_margo.Base.Nodes.{NotIn}
use mochi_margo.EfirstPool.Heap.{IsHeap-ext, one_if, ne_of_count-zero}
use mochi_margo.EfirstPool.Queue.{Pool, key, with_priority}
use mochi_margo.EfirstPool.PrioLaws.{IsPrio, prio_count}
use mochi_margo.EfirstPool.Fifo.{IsFifo, next_of}

-- A pool whose FIFO part holds the units of the list, the oldest first.
pub record IsPool (s : Pool) (us : List ℕ) : Type 0 where
  pub prio : IsPrio s
  pub fifo : IsFifo s us

abbrev pub fifo_count : ℕ → List ℕ → ℕ
fifo_count a [] = 0
fifo_count a (u ∷ us) = fifo_count a us + one_if a u

-- How often a unit stands in the pool.
abbrev pub total : ℕ → Pool → List ℕ → ℕ
total a s us = prio_count a s + fifo_count a us

pub fifo_count-snoc :
    (a p : ℕ) (us : List ℕ) → fifo_count a (us ++ p ∷ []) ≡ fifo_count a us + one_if a p
fifo_count-snoc a p [] = refl
fifo_count-snoc a p (u ∷ us) = omega (arith, fifo_count-snoc a p us)

-- A unit that comes in.
pub record IsOutside (s : Pool) (us : List ℕ) (p : ℕ) : Type 0 where
  pub not_null : p ≢ null
  pub not_in_heap : prio_count p s ≡ 0
  pub not_in_fifo : NotIn p us

pub IsFifo-move :
    (s t : Pool) (us : List ℕ)
    → ((x : ℕ) → next_of t.units x ≡ next_of s.units x)
    → t.first ≡ s.first
    → t.last ≡ s.last
    → t.fifo_size ≡ s.fifo_size
    → IsFifo s us
    → IsFifo t us
IsFifo-move s t us same f l z v = record {
  chain = rw (f, fun_ext same) v.chain;
  ends = v.ends ∙ sym l;
  sized = v.sized ∙ sym z;
  distinct = v.distinct;
}

pub IsPrio-move :
    (s t : Pool)
    → ((i : ℕ) → 1 ≤ i → i ≤ s.size → key t.units (s.entries i) ≡ key s.units (s.entries i))
    → t.entries ≡ s.entries
    → t.size ≡ s.size
    → t.capacity ≡ s.capacity
    → IsPrio s
    → IsPrio t
IsPrio-move s t same e z c v = record {
  heap = rw (e, z) (IsHeap-ext (key s.units) (key t.units) s.entries s.size same v.heap);
  room = rw (z, c) v.room;
  some_room = rw c v.some_room;
  word = rw c v.word;
}

pub with_priority-fields :
    (s : Pool) (p : ℕ)
    → let t = with_priority s p in
      (t.entries ≡ s.entries)
      × (t.size ≡ s.size)
      × (t.capacity ≡ s.capacity)
      × (t.first ≡ s.first)
      × (t.last ≡ s.last)
      × (t.fifo_size ≡ s.fifo_size)
unfolding with_priority
with_priority-fields s p = ground arith

next-with_priority : (s : Pool) (p x : ℕ) → next_of (with_priority s p).units x ≡ next_of s.units x
unfolding with_priority
next-with_priority s p x = ground arith

pub key-with_priority :
    (s : Pool) (p x : ℕ) → x ≢ p → key (with_priority s p).units x ≡ key s.units x
unfolding with_priority
key-with_priority s p x h = ground arith

pub with_priority-IsPool :
    (s : Pool) (us : List ℕ) (p : ℕ)
    → IsPool s us
    → IsOutside s us p
    → IsPool (with_priority s p) us × IsOutside (with_priority s p) us p
with_priority-IsPool s us p v o =
    let (e, z, c, f, l, k) = with_priority-fields s p in
    (
      record {
        prio =
            IsPrio-move s (with_priority s p)
              (λ i q r.
                key-with_priority s p (s.entries i)
                  (ne_of_count-zero p s.entries s.size i o.not_in_heap q r))
              e z c v.prio;
        fifo = IsFifo-move s (with_priority s p) us (next-with_priority s p) f l k v.fifo;
      },
      record {
        not_null = o.not_null;
        not_in_heap = rw (e, z) o.not_in_heap;
        not_in_fifo = o.not_in_fifo;
      },
    )
