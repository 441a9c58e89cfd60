-- ===== src/Timer/Sort.antt =====
-- src/margo-timer.c: the list of the timers that were started, after `__margo_timer_queue`.
use mochi_margo.Base.Nodes.{NotIn, Distinct, last_of}
use mochi_margo.Base.{
  ℕ, ◌≡◌, ◌≢◌, inl, inr, refl, ap, ◌∙◌, sym, subst, List, [], ◌∷◌, ◌++◌, arith, null, length,
}
use mochi_margo.Timer.Dl.{Dl, DlLaws, first_of}
use mochi_margo.Timer.Defs.{TimerList, timer_queue}
use mochi_margo.Timer.Insert.{Sorted, Inserted, rev_onto}
use mochi_margo.Timer.Walk.{
  reversed, last_of-reversed, walked, queue_empty, IsSorted, IsLoose, insert-Found, insert_front,
}

module _ (D : Dl) (L : DlLaws D) (s : TimerList D) (t : ℕ) where
  insert_walked :
      (us : List ℕ) (c : ℕ) (xs : List ℕ)
      → L.contents s.links ≡ us
      → us ≡ rev_onto (c ∷ xs) []
      → length us ≡ length (c ∷ xs)
      → D.prev s.links (D.head s.links) ≡ last_of us
      → D.head s.links ≢ null
      → IsSorted D L s
      → IsLoose D L s t
      → Inserted s.timers t us (L.contents (timer_queue D (length us) s t).links)
  insert_walked us c xs w e n back h v o =
      let d = subst Distinct (w ∙ e) v.distinct in
      let at = back ∙ ap last_of e ∙ last_of-reversed c xs in
      let r = walked D L s.timers s.links t xs c (D.head s.links) [] (w ∙ e) d at tt in
      elim r [
        | inl f ↦ insert-Found D L s t us w v o h (rw (n, e) f)
        | inr f ↦ insert_front D L s t us w v o h (rw n f.0) (rw e f.1)
      ]

  insert_some :
      (u : ℕ) (us rs : List ℕ)
      → L.contents s.links ≡ u ∷ us
      → u ∷ us ≡ rev_onto rs []
      → length rs ≡ length (u ∷ us)
      → IsSorted D L s
      → IsLoose D L s t
      → Inserted s.timers t (u ∷ us) (L.contents (timer_queue D (length (u ∷ us)) s t).links)
  insert_some u us [] w e n v o = absurd (omega (arith, n))
  insert_some u us (c ∷ xs) w e n v o =
      let head = L.head_of s.links ∙ ap first_of w in
      insert_walked (u ∷ us) c xs w e (sym n)
        (ap (λ k. D.prev s.links k) head ∙ L.prev_first s.links u us w)
        (λ k. (subst (NotIn null) w v.nonnull).0 (sym head ∙ k)) v o

  insert_into :
      (us : List ℕ)
      → L.contents s.links ≡ us
      → IsSorted D L s
      → IsLoose D L s t
      → Inserted s.timers t us (L.contents (timer_queue D (length us) s t).links)
  insert_into [] w v o =
      let run = queue_empty D 0 s t (L.head_of s.links ∙ ap first_of w) in
      let is = ap L.contents run ∙ L.contents-append s.links t o.out ∙ ap (λ k. k ++ t ∷ []) w in
      record {
        before = [];
        after = [];
        was = refl;
        is = is;
        below = tt;
        from = tt;
        sorted = subst (Sorted s.timers) (sym is) (tt, tt);
      }
  insert_into (u ∷ us) w v o = let (rs, e, n) = reversed (u ∷ us) in insert_some u us rs w e n v o

  -- `__margo_timer_queue` puts a timer that is in no list behind all the timers that expire
  -- before it and ahead of all the others, in a list that was sorted and stays so; as many rounds
  -- of its loop are enough as the list has timers.
  pub timer_queue_sorts :
      IsSorted D L s
      → IsLoose D L s t
      → Inserted s.timers t
          (L.contents s.links)
          (L.contents (timer_queue D (length (L.contents s.links)) s t).links)
  timer_queue_sorts v o = insert_into (L.contents s.links) refl v o
