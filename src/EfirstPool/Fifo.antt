-- ===== src/EfirstPool/Fifo.antt =====
-- src/margo-efirst-pool.c: the linked list of old units as a FIFO queue.
use mochi_margo.Base.Nodes.{NotIn, Distinct, last_of, last_of-ne, last_of-snoc, Distinct-snoc}
use mochi_margo.Base.{
  ℕ, ◌≤◌, ◌<◌, ◌≡◌, ◌≢◌, refl, ◌∙◌, sym, false, List, [], ◌∷◌, ◌++◌, arith, length, length-append,
  ◌==◌, if◌then◌else◌, u64_max, null, sub_u64,
}
use mochi_margo.EfirstPool.Queue.{
  WorkUnit, Pool, key, flip_in, set_next, queue_push_fifo, queue_pop_fifo,
}

-- From p the links lead through the units of the list to null.
abbrev pub Chain : (ℕ → ℕ) → ℕ → List ℕ → Type 0
Chain next p [] = p ≡ null
Chain next p (u ∷ us) = (p ≡ u) × (u ≢ null) × Chain next (next u) us

abbrev pub next_of : (ℕ → WorkUnit) → ℕ → ℕ
next_of units p = (units p).next

-- The list holds the units of the FIFO part, the oldest first.
pub record IsFifo (s : Pool) (us : List ℕ) : Type 0 where
  pub chain : Chain (next_of s.units) s.first us
  pub ends : last_of us ≡ s.last
  pub sized : length us ≡ s.fifo_size
  pub distinct : Distinct us

Chain-ext :
    (f g : ℕ → ℕ) (w p : ℕ) (us : List ℕ)
    → ((x : ℕ) → x ≢ w → g x ≡ f x)
    → NotIn w us
    → Chain f p us
    → Chain g p us
Chain-ext f g w p [] same out c = c
Chain-ext f g w p (u ∷ us) same out (at, nonnull, rest) =
    (at, nonnull, rw (same u out.0) (Chain-ext f g w (f u) us same out.1 rest))

-- To link one more unit behind the last one.
Chain-snoc :
    (f g : ℕ → ℕ) (p q u : ℕ) (us : List ℕ)
    → p ≢ null
    → g p ≡ null
    → g (last_of (u ∷ us)) ≡ p
    → ((x : ℕ) → x ≢ p → x ≢ last_of (u ∷ us) → g x ≡ f x)
    → NotIn p (u ∷ us)
    → Distinct (u ∷ us)
    → Chain f q (u ∷ us)
    → Chain g q (u ∷ us ++ p ∷ [])
Chain-snoc f g p q u [] nonnull end link same out d (at, nn, rest) = (at, nn, (link, nonnull, end))
Chain-snoc f g p q u (v ∷ us) nonnull end link same out d (at, nn, rest) =
    let kept : g u ≡ f u = same u out.0 (λ e. last_of-ne u v us d.0 (sym e)) in
    (at, nn, rw kept (Chain-snoc f g p (f u) v us nonnull end link same out.1 d.1 rest))

module _ (s : Pool) (p : ℕ) (some_units : (s.fifo_size == 0) ≡ false) where
  first-push : (queue_push_fifo s p).first ≡ s.first
  unfolding queue_push_fifo
  first-push = ground arith

  next-push_self : s.last ≢ p → next_of (queue_push_fifo s p).units p ≡ null
  unfolding queue_push_fifo
  next-push_self h = ground arith

  next-push_last : s.last ≢ p → next_of (queue_push_fifo s p).units s.last ≡ p
  unfolding queue_push_fifo
  next-push_last h = ground arith

  next-push_other :
      (x : ℕ) → x ≢ p → x ≢ s.last → next_of (queue_push_fifo s p).units x ≡ next_of s.units x
  unfolding queue_push_fifo
  next-push_other x h k = ground arith

Chain-after :
    (s : Pool) (p u : ℕ) (us : List ℕ)
    → IsFifo s (u ∷ us)
    → p ≢ null
    → NotIn p (u ∷ us)
    → Chain (next_of (queue_push_fifo s p).units) (queue_push_fifo s p).first (u ∷ us ++ p ∷ [])
Chain-after s p u us v nonnull out =
    let some_units : (s.fifo_size == 0) ≡ false = ground (arith, v.sized) in
    let other : s.last ≢ p = λ e. last_of-ne p u us out (v.ends ∙ e) in
    rw (first-push s p some_units) (
      Chain-snoc (next_of s.units) _ p s.first u us nonnull (next-push_self s p some_units other)
        (rw v.ends (next-push_last s p some_units other))
        (λ x a b. next-push_other s p some_units x a (λ e. b (e ∙ sym v.ends))) out v.distinct
        v.chain)

-- What a push on the FIFO part leaves.
pub record PushedFifo (s : Pool) (us : List ℕ) (p : ℕ) (t : Pool) : Type 0 where
  pub fifo : IsFifo t (us ++ p ∷ [])
  pub same_keys : (q : ℕ) → key t.units q ≡ key s.units q
  pub same_entries : t.entries ≡ s.entries
  pub same_size : t.size ≡ s.size
  pub same_capacity : t.capacity ≡ s.capacity

pub push_fifo_appends :
    (s : Pool) (us : List ℕ) (p : ℕ)
    → IsFifo s us
    → p ≢ null
    → NotIn p us
    → s.fifo_size < u64_max
    → PushedFifo s us p (queue_push_fifo s p)
unfolding queue_push_fifo
push_fifo_appends s [] p v nonnull out small = record {
  fifo = record {
    chain = ground (arith, v.sized);
    ends = refl;
    sized = omega (arith, v.sized);
    distinct = (tt, tt);
  };
  same_keys = λ q. ground arith;
  same_entries = refl;
  same_size = refl;
  same_capacity = refl;
}
push_fifo_appends s (u ∷ us) p v nonnull out small = record {
  fifo = record {
    chain = Chain-after s p u us v nonnull out;
    ends = last_of-snoc p u us;
    sized = omega (arith, v.sized, length-append (u ∷ us) (p ∷ []));
    distinct = Distinct-snoc p (u ∷ us) out v.distinct;
  };
  same_keys = λ q. ground arith;
  same_entries = refl;
  same_size = refl;
  same_capacity = refl;
}

-- What a pop from the FIFO part leaves.
pub record PoppedFifo (s : Pool) (u : ℕ) (us : List ℕ) (t : Pool) : Type 0 where
  pub fifo : IsFifo t us
  pub units : t.units ≡ flip_in (set_next s.units u null) u
  pub same_keys : (q : ℕ) → key t.units q ≡ key s.units q
  pub same_entries : t.entries ≡ s.entries
  pub same_size : t.size ≡ s.size
  pub same_capacity : t.capacity ≡ s.capacity

flip-next :
    (s : Pool) (u x : ℕ)
    → x ≢ u
    → next_of (flip_in (set_next s.units u null) u) x ≡ next_of s.units x
flip-next s u x h = ground arith

flip-key : (s : Pool) (u q : ℕ) → key (flip_in (set_next s.units u null) u) q ≡ key s.units q
flip-key s u q = ground arith

ends_after :
    (u last left : ℕ) (us : List ℕ)
    → last_of (u ∷ us) ≡ last
    → length us ≡ left
    → last_of us ≡ (if left == 0 then null else last)
ends_after u last left [] e h = ground arith
ends_after u last left (v ∷ us) e h = ground arith

pub pop_fifo_removes :
    (s : Pool) (u : ℕ) (us : List ℕ)
    → IsFifo s (u ∷ us)
    → s.fifo_size ≤ u64_max
    → (t : Pool) × (queue_pop_fifo s ≡ (u, t)) × PoppedFifo s u us t
unfolding queue_pop_fifo
pop_fifo_removes s u us v small =
    let some_units : (s.fifo_size == 0) ≡ false = ground (arith, v.sized) in
    let less : sub_u64 s.fifo_size 1 ≡ length us = omega (arith, v.sized) in
    let at : s.first ≡ u = v.chain.0 in
    (
      record s {
        first = next_of s.units u;
        fifo_size = length us;
        last = if length us == 0 then null else s.last;
        units = flip_in (set_next s.units u null) u;
      },
      rw (some_units, less, at) refl,
      record {
        fifo = record {
          chain =
              Chain-ext (next_of s.units) _ u (next_of s.units u) us (flip-next s u) v.distinct.0
                v.chain.2;
          ends = ends_after u s.last (length us) us v.ends refl;
          sized = refl;
          distinct = v.distinct.1;
        };
        units = refl;
        same_keys = flip-key s u;
        same_entries = refl;
        same_size = refl;
        same_capacity = refl;
      },
    )
