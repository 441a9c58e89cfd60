-- ===== src/PrioPool/Laws.antt =====
-- src/margo-prio-pool.c: the pool as two FIFO lists.
use mochi_margo.Base.Nodes.{NotIn, NotIn-snoc}
use mochi_margo.Base.{
  ℕ, suc, ◌+◌, ◌%◌, ◌^◌, ◌<◌, ◌≡◌, ◌≢◌, inl, inr, refl, ap, ◌∙◌, sym, Bool, true, false, ◌&&◌, List,
  [], ◌∷◌, ◌++◌, arith, null, update, ltb, leb, ◌||◌, zero, ◌==◌, if◌then◌else◌, Bool-cases, length,
  length-append,
}
use mochi_margo.PrioPool.Defs.{Units, Queue, Pool, queue_push, counted, goes_low, limit, pool_push}
use mochi_margo.PrioPool.QueueLaws.{IsQueue, IsQueue-frame, Apart, push_appends}

-- The high-priority list holds the first units and the low-priority list the second ones.
pub record IsPool (s : Pool) (us vs : List ℕ) : Type 0 where
  pub high : IsQueue s.units s.high us
  pub low : IsQueue s.units s.low vs
  pub apart : Apart us vs
  pub back : Apart vs us
  pub num : s.num ≡ length us + length vs
  pub small : s.num < 2 ^ 32

-- The two lists after a push of p, and after a pop: what is taken, then the lists.
abbrev pub pushed : Bool → ℕ → List ℕ → List ℕ → List ℕ × List ℕ
pushed low p us vs = if low then (us, vs ++ p ∷ []) else (us ++ p ∷ [], vs)

abbrev pub popped : Bool → List ℕ → List ℕ → ℕ × List ℕ × List ℕ
popped high_first [] [] = (null, [], [])
popped high_first [] (v ∷ vs) = (v, [], vs)
popped high_first (u ∷ us) [] = (u, us, [])
popped high_first (u ∷ us) (v ∷ vs) = if high_first then (u, us, v ∷ vs) else (v, u ∷ us, vs)

Apart-snoc : (us vs : List ℕ) (p : ℕ) → Apart us vs → NotIn p us → Apart us (vs ++ p ∷ [])
Apart-snoc us [] p a o = (o, tt)
Apart-snoc us (v ∷ vs) p a o = (a.0, Apart-snoc us vs p a.1 o)

Apart-grow : (us vs : List ℕ) (p : ℕ) → Apart us vs → NotIn p vs → Apart (us ++ p ∷ []) vs
Apart-grow us [] p a o = tt
Apart-grow us (v ∷ vs) p a o =
    (NotIn-snoc v p us a.0 (λ e. o.0 (sym e)), Apart-grow us vs p a.1 o.1)

pub Apart-nil : (vs : List ℕ) → Apart [] vs
Apart-nil [] = tt
Apart-nil (v ∷ vs) = (tt, Apart-nil vs)

pub Apart-shrink : (u : ℕ) (us vs : List ℕ) → Apart (u ∷ us) vs → Apart us vs
Apart-shrink u us [] a = tt
Apart-shrink u us (v ∷ vs) a = (a.0.1, Apart-shrink u us vs a.1)

IsQueue-counted :
    (m : Units) (p : ℕ) (q : Queue) (us : List ℕ) → IsQueue m q us → IsQueue (counted m p) q us
IsQueue-counted m p q us v =
    IsQueue-frame m (counted m p) q [] us (λ x o. (ground arith, ground arith)) (Apart-nil us) v

-- Never pushed before, or 25 times and more.
abbrev pub starts_low : ℕ → Bool
starts_low zero = true
starts_low (suc n) = leb 24 n

goes_low-starts_low : (m : Units) (p : ℕ) → goes_low m p ≡ starts_low (m.sched_counter p)
goes_low-starts_low m p = by_count (m.sched_counter p)
  where
    by_count : (n : ℕ) → ((n == 0) || leb limit n) ≡ starts_low n
    by_count zero = ground arith
    by_count (suc n) = ground arith

-- What a push into the pool leaves.
pub record Pushing (s : Pool) (p : ℕ) (us vs : List ℕ) (t : Pool) : Type 0 where
  pub valid : IsPool t us vs
  pub counter :
      (x : ℕ)
      → t.units.sched_counter x ≡ (
          if (p == x) && ltb (s.units.sched_counter p) 25
          then suc (s.units.sched_counter x)
          else s.units.sched_counter x)
  pub marked : t.units.in_pool ≡ update s.units.in_pool p true
  pub same_cnt : t.cnt ≡ s.cnt

counted_counter :
    (m : Units) (p x : ℕ)
    → (counted m p).sched_counter x ≡ (
        if (p == x) && ltb (m.sched_counter p) limit
        then suc (m.sched_counter x)
        else m.sched_counter x)
counted_counter m p x = ground arith

counted_in_pool : (m : Units) (p : ℕ) → (counted m p).in_pool ≡ m.in_pool
counted_in_pool m p = ground arith

-- The pool after a push into the list that the unit goes to.
abbrev in_low : Pool → ℕ → Pool
in_low s p =
    let r = queue_push (counted s.units p) s.low p in
    record s { units = r.0; low = r.1; num = (s.num + 1) % 2 ^ 32 }

abbrev in_high : Pool → ℕ → Pool
in_high s p =
    let r = queue_push (counted s.units p) s.high p in
    record s { units = r.0; high = r.1; num = (s.num + 1) % 2 ^ 32 }

push_low : (s : Pool) (p : ℕ) → goes_low s.units p ≡ true → pool_push s p ≡ in_low s p
unfolding pool_push
push_low s p e = rw e

push_high : (s : Pool) (p : ℕ) → goes_low s.units p ≡ false → pool_push s p ≡ in_high s p
unfolding pool_push
push_high s p e = rw e

module _ (s : Pool) (p : ℕ) (us vs : List ℕ) (v : IsPool s us vs) (some_unit : p ≢ null)
    (out_high : NotIn p us) (out_low : NotIn p vs) (room : suc s.num < 2 ^ 32) where
  low-Pushing : Pushing s p us (vs ++ p ∷ []) (in_low s p)
  low-Pushing =
      let d =
        push_appends (counted s.units p) s.low p vs some_unit
          (IsQueue-counted s.units p s.low vs v.low) out_low in
      record {
        valid = record {
          high =
              IsQueue-frame (counted s.units p) (in_low s p).units s.high (vs ++ p ∷ []) us d.spares
                (Apart-grow vs us p v.back out_high) (IsQueue-counted s.units p s.high us v.high);
          low = d.queue;
          apart = Apart-snoc us vs p v.apart out_high;
          back = Apart-grow vs us p v.back out_high;
          num = ground (arith, v.num, length-append vs (p ∷ []), room);
          small = omega arith;
        };
        counter = λ x. ap (λ k. k x) d.same_counter ∙ counted_counter s.units p x;
        marked = d.marked ∙ ap (λ k. update k p true) (counted_in_pool s.units p);
        same_cnt = refl;
      }

  high-Pushing : Pushing s p (us ++ p ∷ []) vs (in_high s p)
  high-Pushing =
      let d =
        push_appends (counted s.units p) s.high p us some_unit
          (IsQueue-counted s.units p s.high us v.high) out_high in
      record {
        valid = record {
          high = d.queue;
          low =
              IsQueue-frame (counted s.units p) (in_high s p).units s.low (us ++ p ∷ []) vs d.spares
                (Apart-grow us vs p v.apart out_low) (IsQueue-counted s.units p s.low vs v.low);
          apart = Apart-grow us vs p v.apart out_low;
          back = Apart-snoc vs us p v.back out_low;
          num = ground (arith, v.num, length-append us (p ∷ []), room);
          small = omega arith;
        };
        counter = λ x. ap (λ k. k x) d.same_counter ∙ counted_counter s.units p x;
        marked = d.marked ∙ ap (λ k. update k p true) (counted_in_pool s.units p);
        same_cnt = refl;
      }

  -- On a well-formed pool, a unit that is not null and in neither list is appended to the low-priority list if it was never pushed
  -- before or 25 times and more, and to the high-priority list otherwise; its counter goes up
  -- by one until it is 25, no other counter changes, and it is marked as in the pool. The
  -- number of units has to stay below 2 ^ 32.
  pub pool_push_refines :
      Pushing s p
        (pushed (starts_low (s.units.sched_counter p)) p us vs).0
        (pushed (starts_low (s.units.sched_counter p)) p us vs).1
        (pool_push s p)
  pool_push_refines =
      let same = goes_low-starts_low s.units p in
      elim (Bool-cases (goes_low s.units p)) [
        | inl e ↦ rw (push_low s p e, sym same ∙ e) low-Pushing
        | inr e ↦ rw (push_high s p e, sym same ∙ e) high-Pushing
      ]
