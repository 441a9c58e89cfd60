-- ===== src/PrioPool/QueueLaws.antt =====
-- src/margo-prio-pool.c: the operations of a circular list refine those of a FIFO queue.
use mochi_margo.Base.Nodes.{
  NotIn, Distinct, last_of, last_of-ne, last_of-snoc, NotIn-snoc, Distinct-snoc,
}
use mochi_margo.Base.{
  ℕ, ◌≡◌, ◌≢◌, refl, ap, ◌∙◌, sym, true, false, List, [], ◌∷◌, ◌++◌, arith, null, update,
}
use mochi_margo.PrioPool.Defs.{Units, Queue, queue_push, queue_pop}
use mochi_margo.PrioPool.Ring.{Seg, Seg-last, Seg-snoc, Seg-retarget, Agree, Seg-frame}

-- The list holds the units of the circular list, the head first.
abbrev pub Linked : Units → Queue → List ℕ → Type 0
Linked m q [] = (q.head ≡ null) × (q.tail ≡ null)
Linked m q (h ∷ us) = (q.head ≡ h) × (q.tail ≡ last_of (h ∷ us)) × Seg m.next m.prev h us h

pub record IsQueue (m : Units) (q : Queue) (us : List ℕ) : Type 0 where
  pub linked : Linked m q us
  pub nonnull : NotIn null us
  pub distinct : Distinct us

-- No node of the second list is one of the first.
abbrev pub Apart : List ℕ → List ℕ → Type 0
Apart us [] = Unit {0}
Apart us (x ∷ vs) = NotIn x us × Apart us vs

-- The links of nodes outside a list stay as they are.
abbrev pub Spares : List ℕ → Units → Units → Type 0
Spares us m m' = (x : ℕ) → NotIn x us → (m'.next x ≡ m.next x) × (m'.prev x ≡ m.prev x)

Agree-of_Spares :
    (m m' : Units) (us vs : List ℕ)
    → Spares us m m'
    → Apart us vs
    → Agree m.next m'.next m.prev m'.prev vs
Agree-of_Spares m m' us [] s a = tt
Agree-of_Spares m m' us (x ∷ vs) s a = ((s x a.0).0, (s x a.0).1, Agree-of_Spares m m' us vs s a.1)

-- An operation on one list leaves another list alone.
pub IsQueue-frame :
    (m m' : Units) (q : Queue) (us vs : List ℕ)
    → Spares us m m'
    → Apart us vs
    → IsQueue m q vs
    → IsQueue m' q vs
IsQueue-frame m m' q us [] s a v = record { linked = v.linked; nonnull = tt; distinct = tt }
IsQueue-frame m m' q us (h ∷ vs) s a v = record {
  linked = (
    v.linked.0,
    v.linked.1,
    Seg-frame m.next m'.next m.prev m'.prev h vs h (Agree-of_Spares m m' us (h ∷ vs) s a)
        (s h a.0).1 v.linked.2,
  );
  nonnull = v.nonnull;
  distinct = v.distinct;
}

-- What a push leaves.
pub record Pushed (m : Units) (us : List ℕ) (p : ℕ) (r : Units × Queue) : Type 0 where
  pub queue : IsQueue r.0 r.1 (us ++ p ∷ [])
  pub spares : Spares (us ++ p ∷ []) m r.0
  pub same_counter : r.0.sched_counter ≡ m.sched_counter
  pub marked : r.0.in_pool ≡ update m.in_pool p true

module _ (m : Units) (q : Queue) (p : ℕ) (nonnull : p ≢ null) where
  push_to_empty : IsQueue m q [] → Pushed m [] p (queue_push m q p)
  unfolding queue_push
  push_to_empty v = record {
    queue = record {
      linked = ground (arith, v.linked);
      nonnull = (nonnull, tt);
      distinct = (tt, tt);
    };
    spares = λ x out. ground (arith, v.linked, out.0);
    same_counter = ground arith;
    marked = ground arith;
  }

  -- The fields after a push on a list with a head.
  push_next :
      (h t : ℕ)
      → q.head ≡ h
      → q.tail ≡ t
      → h ≢ null
      → (queue_push m q p).0.next ≡ update (update m.next t p) p h
  unfolding queue_push
  push_next h t e f n = ground (arith, e, f)

  push_prev :
      (h t : ℕ)
      → q.head ≡ h
      → q.tail ≡ t
      → h ≢ null
      → (queue_push m q p).0.prev ≡ update (update m.prev h p) p t
  unfolding queue_push
  push_prev h t e f n = ground (arith, e, f)

  push_others :
      (h : ℕ)
      → q.head ≡ h
      → h ≢ null
      → ((queue_push m q p).1.head ≡ h)
        × ((queue_push m q p).1.tail ≡ p)
        × ((queue_push m q p).0.sched_counter ≡ m.sched_counter)
        × ((queue_push m q p).0.in_pool ≡ update m.in_pool p true)
  unfolding queue_push
  push_others h e n = ground (arith, e)

pub NotIn-append : (x : ℕ) (us vs : List ℕ) → NotIn x (us ++ vs) → NotIn x us × NotIn x vs
NotIn-append x [] vs o = (tt, o)
NotIn-append x (u ∷ us) vs o = let r = NotIn-append x us vs o.1 in ((o.0, r.0), r.1)

-- The links that a push writes.
ring_push :
    (f g : ℕ → ℕ) (p h t : ℕ) (us : List ℕ)
    → t ≡ last_of (h ∷ us)
    → NotIn p (h ∷ us)
    → Distinct (h ∷ us)
    → Seg f g h us h
    → Seg (update (update f t p) p h) (update (update g h p) p t) h (us ++ p ∷ []) h
ring_push f g p h t us e out d s =
    let l = last_of-ne p h us out in
    let o = out.0 in
    Seg-snoc f (update (update f t p) p h) g (update (update g h p) p t) p h us h
      (ground (arith, e, l, o)) (ground (arith, e, l, o)) (ground (arith, e, l, o))
      (ground (arith, e, l, o)) (λ x m n. ground (arith, e, m, n)) (λ x m n. ground (arith, m, n))
      out d.0 d s

module _ (m : Units) (q : Queue) (p h : ℕ) (us : List ℕ) (nonnull : p ≢ null) where
  push_to_list : IsQueue m q (h ∷ us) → NotIn p (h ∷ us) → Pushed m (h ∷ us) p (queue_push m q p)
  push_to_list v out =
      let t = last_of (h ∷ us) in
      let n = v.nonnull.0 in
      let others = push_others m q p nonnull h v.linked.0 n in
      let next = push_next m q p nonnull h t v.linked.0 v.linked.1 n in
      let prev = push_prev m q p nonnull h t v.linked.0 v.linked.1 n in
      record {
        queue = record {
          linked = (
            others.0,
            others.1 ∙ sym (last_of-snoc p h us),
            rw (next, prev) (ring_push m.next m.prev p h t us refl out v.distinct v.linked.2),
          );
          nonnull = NotIn-snoc null p (h ∷ us) v.nonnull nonnull;
          distinct = Distinct-snoc p (h ∷ us) out v.distinct;
        };
        spares = λ x o.
            let far = last_of-ne x h us (NotIn-append x (h ∷ us) (p ∷ []) o).0 in
            let here = (NotIn-append x (h ∷ us) (p ∷ []) o).1.0 in
            (
              ap (λ k. k x) next ∙ ground (arith, far, here),
              ap (λ k. k x) prev ∙ ground (arith, o.0, here),
            );
        same_counter = others.2;
        marked = others.3;
      }

  -- The fields after a pop.
  pop_single :
      q.head ≡ h
      → q.tail ≡ h
      → h ≢ null
      → ((queue_pop m q).0 ≡ h)
        × ((queue_pop m q).2 ≡ record { head = null; tail = null })
        × ((queue_pop m q).1 ≡ record m {
          next = update m.next h null;
          prev = update m.prev h null;
          in_pool = update m.in_pool h false;
        })
  unfolding queue_pop
  pop_single e f n = ground (arith, e, f, n)

  pop_next :
      (t u : ℕ)
      → q.head ≡ h
      → q.tail ≡ t
      → h ≢ null
      → t ≢ h
      → m.prev h ≡ t
      → m.next h ≡ u
      → (queue_pop m q).1.next ≡ update (update m.next t u) h null
  unfolding queue_pop
  pop_next t u e f n o a b = ground (arith, e, f, a, b)

  pop_prev :
      (t u : ℕ)
      → q.head ≡ h
      → q.tail ≡ t
      → h ≢ null
      → t ≢ h
      → m.prev h ≡ t
      → m.next h ≡ u
      → (queue_pop m q).1.prev ≡ update (update m.prev u t) h null
  unfolding queue_pop
  pop_prev t u e f n o a b = ground (arith, e, f, a, b)

  pop_others :
      (t u : ℕ)
      → q.head ≡ h
      → q.tail ≡ t
      → h ≢ null
      → t ≢ h
      → m.prev h ≡ t
      → m.next h ≡ u
      → ((queue_pop m q).0 ≡ h)
        × ((queue_pop m q).2.head ≡ u)
        × ((queue_pop m q).2.tail ≡ t)
        × ((queue_pop m q).1.sched_counter ≡ m.sched_counter)
        × ((queue_pop m q).1.in_pool ≡ update m.in_pool h false)
  unfolding queue_pop
  pop_others t u e f n o a b = ground (arith, e, f, a, b)

-- What a pop leaves.
pub record Popped (m : Units) (h : ℕ) (us : List ℕ) (r : ℕ × Units × Queue) : Type 0 where
  pub unit : r.0 ≡ h
  pub queue : IsQueue r.1 r.2 us
  pub spares : Spares (h ∷ us) m r.1
  pub same_counter : r.1.sched_counter ≡ m.sched_counter
  pub marked : r.1.in_pool ≡ update m.in_pool h false

-- The links that a pop writes.
ring_pop :
    (f g : ℕ → ℕ) (h t u : ℕ) (us : List ℕ)
    → t ≡ last_of (u ∷ us)
    → NotIn h (u ∷ us)
    → Distinct (u ∷ us)
    → Seg f g u us h
    → Seg (update (update f t u) h null) (update (update g u t) h null) u us u
ring_pop f g h t u us e out d s =
    let l = last_of-ne h u us out in
    let o = out.0 in
    Seg-retarget f (update (update f t u) h null) g (update (update g u t) h null) h u us h u
      (ground (arith, e, l, o)) (ground (arith, e, l, o)) (λ x m n. ground (arith, e, m, n))
      (λ x m n. ground (arith, m, n)) out d.0 d s

module _ (m : Units) (q : Queue) (h : ℕ) where
  pop_one : IsQueue m q (h ∷ []) → Popped m h [] (queue_pop m q)
  pop_one v =
      let f = pop_single m q h h [] v.nonnull.0 v.linked.0 v.linked.1 v.nonnull.0 in
      record {
        unit = f.0;
        queue = record { linked = rw f.1 (refl, refl); nonnull = tt; distinct = tt };
        spares = λ x o. (rw f.2 (ground (arith, o.0)), rw f.2 (ground (arith, o.0)));
        same_counter = rw f.2;
        marked = rw f.2;
      }

  pop_more : (u : ℕ) (us : List ℕ) → IsQueue m q (h ∷ u ∷ us) → Popped m h (u ∷ us) (queue_pop m q)
  pop_more u us v =
      let t = last_of (u ∷ us) in
      let n = v.nonnull.0 in
      let l = last_of-ne h u us v.distinct.0 in
      let s = v.linked.2 in
      let back = Seg-last m.next m.prev h (u ∷ us) h s in
      let others = pop_others m q h h us n t u v.linked.0 v.linked.1 n l back s.0 in
      let next = pop_next m q h h us n t u v.linked.0 v.linked.1 n l back s.0 in
      let prev = pop_prev m q h h us n t u v.linked.0 v.linked.1 n l back s.0 in
      record {
        unit = others.0;
        queue = record {
          linked = (
            others.1,
            others.2,
            rw (next, prev) (ring_pop m.next m.prev h t u us refl v.distinct.0 v.distinct.1 s.2),
          );
          nonnull = v.nonnull.1;
          distinct = v.distinct.1;
        };
        spares = λ x o.
            let far = last_of-ne x u us o.1 in
            (
              ap (λ k. k x) next ∙ ground (arith, far, o.0),
              ap (λ k. k x) prev ∙ ground (arith, o.0, o.1.0),
            );
        same_counter = others.3;
        marked = others.4;
      }

-- A push appends the unit to the list, whatever the list holds.
pub push_appends :
    (m : Units) (q : Queue) (p : ℕ) (us : List ℕ)
    → p ≢ null
    → IsQueue m q us
    → NotIn p us
    → Pushed m us p (queue_push m q p)
push_appends m q p [] n v out = push_to_empty m q p n v
push_appends m q p (h ∷ us) n v out = push_to_list m q p h us n v out

-- A pop takes the head.
pub pop_takes :
    (m : Units) (q : Queue) (h : ℕ) (us : List ℕ)
    → IsQueue m q (h ∷ us)
    → Popped m h us (queue_pop m q)
pop_takes m q h [] v = pop_one m q h v
pop_takes m q h (u ∷ us) v = pop_more m q h u us v

pub pop_nothing : (m : Units) (q : Queue) → IsQueue m q [] → queue_pop m q ≡ (null, m, q)
unfolding queue_pop
pop_nothing m q v = ground (arith, v.linked)
