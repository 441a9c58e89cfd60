-- ===== src/Timer/Walk.antt =====
-- src/margo-timer.c: the walk of `__margo_timer_queue` from the tail of the list.
use mathlib.Core.List.{Memᴰ}
use mochi_margo.Base.Nodes.{NotIn, Distinct, last_of}
use mochi_margo.Base.{
  ℕ, suc, ◌+◌, ◌≤◌, ◌<◌, ◌≡◌, ◌≢◌, ◌⊎◌, inl, inr, refl, ap, ◌∙◌, sym, subst, List, [], ◌∷◌, ◌++◌,
  arith, null, ltb, Bool-cases, length,
}
use mochi_margo.Timer.Dl.{Dl, DlLaws, first_of}
use mochi_margo.Timer.Defs.{Timer, TimerList, walk_back, timer_queue}
use mochi_margo.Timer.Insert.{
  AllFrom, Sorted, rev_onto, rev_onto-append, first_of-ne, Sorted-insert, below_of_Sorted, Inserted,
}

module _ (D : Dl) (e : ℕ → Timer) (l : D.Links) (cur c t n : ℕ) (at : D.prev l cur ≡ c) where
  walk_here :
      (e c).expiration < (e t).expiration → walk_back D (suc n) e l cur t ≡ D.append_elem l c t
  unfolding walk_back
  walk_here h = ground (arith, at, h)

  walk_stop : (e t).expiration ≤ (e c).expiration → c ≡ D.head l → walk_back D (suc n) e l cur t ≡ l
  unfolding walk_back
  walk_stop h f = ground (arith, at, h, f)

  walk_on :
      (e t).expiration ≤ (e c).expiration
      → c ≢ D.head l
      → walk_back D (suc n) e l cur t ≡ walk_back D n e l c t
  unfolding walk_back
  walk_on h f = ground (arith, at, h, f)

-- The walk found a timer that expires earlier, or it reached the head without one.
pub record Found (D : Dl) (L : DlLaws D) (e : ℕ → Timer) (l : D.Links) (t : ℕ) (us : List ℕ)
    (r : D.Links) : Type 0 where
  pub before : List ℕ
  pub elem : ℕ
  pub after : List ℕ
  pub was : us ≡ before ++ elem ∷ after
  pub is : r ≡ D.append_elem l elem t
  pub earlier : (e elem).expiration < (e t).expiration
  pub from : AllFrom e (e t).expiration after

module _ (D : Dl) (L : DlLaws D) (e : ℕ → Timer) (l : D.Links) (t : ℕ) where
  found :
      (xs : List ℕ) (c cur : ℕ) (ys : List ℕ)
      → D.prev l cur ≡ c
      → AllFrom e (e t).expiration ys
      → (e c).expiration < (e t).expiration
      → Found D L e l t (rev_onto (c ∷ xs) ys) (walk_back D (length (c ∷ xs)) e l cur t)
  found xs c cur ys at f h = record {
    before = rev_onto xs [];
    elem = c;
    after = ys;
    was = rev_onto-append xs [] (c ∷ ys);
    is = walk_here D e l cur c t (length xs) at h;
    earlier = h;
    from = f;
  }

  pub walked :
      (xs : List ℕ) (c cur : ℕ) (ys : List ℕ)
      → L.contents l ≡ rev_onto (c ∷ xs) ys
      → Distinct (rev_onto (c ∷ xs) ys)
      → D.prev l cur ≡ c
      → AllFrom e (e t).expiration ys
      → Found D L e l t (rev_onto (c ∷ xs) ys) (walk_back D (length (c ∷ xs)) e l cur t)
        ⊎ ((walk_back D (length (c ∷ xs)) e l cur t ≡ l)
            × AllFrom e (e t).expiration (rev_onto (c ∷ xs) ys))
  walked [] c cur ys w d at f = elim (Bool-cases (ltb (e c).expiration (e t).expiration)) [
    | inl h ↦ inl (found [] c cur ys at f (ground (arith, h)))
    | inr h ↦ inr (
      walk_stop D e l cur c t 0 at (ground (arith, h)) (sym (L.head_of l ∙ ap first_of w)),
      (ground (arith, h), f),
    )
  ]
  walked (x ∷ xs) c cur ys w d at f =
      let split = rev_onto-append xs [] (x ∷ c ∷ ys) in
      let back = L.prev_after l (rev_onto xs []) x c ys (w ∙ split) (subst Distinct split d) in
      elim (Bool-cases (ltb (e c).expiration (e t).expiration)) [
        | inl h ↦ inl (found (x ∷ xs) c cur ys at f (ground (arith, h)))
        | inr h ↦
            let on = walk_on D e l cur c t (length (x ∷ xs)) at (ground (arith, h)) (λ k.
              first_of-ne xs x c (c ∷ ys) (Memᴰ.head refl) d (k ∙ L.head_of l ∙ ap first_of w)) in
            rw on (walked xs x c (c ∷ ys) w d back (ground (arith, h), f))
      ]

-- The list as the walk meets it.
pub reversed : (us : List ℕ) → (xs : List ℕ) × (us ≡ rev_onto xs []) × (length xs ≡ length us)
reversed us = go us [] us refl (omega arith)
  where
    go :
        (ys xs zs : List ℕ)
        → zs ≡ rev_onto xs ys
        → length xs + length ys ≡ length zs
        → (rs : List ℕ) × (zs ≡ rev_onto rs []) × (length rs ≡ length zs)
    go [] xs zs e n = (xs, e, omega (arith, n))
    go (y ∷ ys) xs zs e n = go ys (y ∷ xs) zs e (omega (arith, n))

last_of-rev_onto :
    (xs : List ℕ) (y z : ℕ) (ys : List ℕ) → last_of (rev_onto xs (y ∷ z ∷ ys)) ≡ last_of (z ∷ ys)
last_of-rev_onto [] y z ys = refl
last_of-rev_onto (x ∷ xs) y z ys = last_of-rev_onto xs x y (z ∷ ys)

pub last_of-reversed : (c : ℕ) (xs : List ℕ) → last_of (rev_onto (c ∷ xs) []) ≡ c
last_of-reversed c [] = refl
last_of-reversed c (x ∷ xs) = last_of-rev_onto xs x c []

NotIn-insert : (x t : ℕ) (us ws : List ℕ) → NotIn x (us ++ ws) → t ≢ x → NotIn x (us ++ t ∷ ws)
NotIn-insert x t [] ws o n = (n, o)
NotIn-insert x t (u ∷ us) ws o n = (o.0, NotIn-insert x t us ws o.1 n)

Distinct-insert :
    (t : ℕ) (us ws : List ℕ) → NotIn t (us ++ ws) → Distinct (us ++ ws) → Distinct (us ++ t ∷ ws)
Distinct-insert t [] ws o d = (o, d)
Distinct-insert t (u ∷ us) ws o d =
    (NotIn-insert u t us ws d.0 (λ e. o.0 (sym e)), Distinct-insert t us ws o.1 d.1)

append_assoc : (c : ℕ) (us ws : List ℕ) → us ++ c ∷ ws ≡ (us ++ c ∷ []) ++ ws
append_assoc c [] ws = refl
append_assoc c (u ∷ us) ws = ap (λ k. u ∷ k) (append_assoc c us ws)

NotIn-at : (x c : ℕ) (us ws : List ℕ) → NotIn x (us ++ c ∷ ws) → c ≢ x
NotIn-at x c [] ws o = o.0
NotIn-at x c (u ∷ us) ws o = NotIn-at x c us ws o.1

module _ (D : Dl) (n : ℕ) (s : TimerList D) (t : ℕ) where
  pub queue_empty : D.head s.links ≡ null → (timer_queue D n s t).links ≡ D.append s.links t
  unfolding timer_queue
  queue_empty e = ground (arith, e)

  queue_found :
      (r : D.Links)
      → D.head s.links ≢ null
      → walk_back D n s.timers s.links (D.head s.links) t ≡ r
      → D.prev r t ≢ null
      → (timer_queue D n s t).links ≡ r
  unfolding timer_queue
  queue_found r e w p = ground (arith, e, w, p)

  queue_front :
      D.head s.links ≢ null
      → walk_back D n s.timers s.links (D.head s.links) t ≡ s.links
      → D.prev s.links t ≡ null
      → D.next s.links t ≡ null
      → (timer_queue D n s t).links ≡ D.prepend s.links t
  unfolding timer_queue
  queue_front e w p q = ground (arith, e, w, p, q)

-- A list of started timers: those that `contents` gives, each of them once, none of them null,
-- in the order of their expirations.
pub record IsSorted (D : Dl) (L : DlLaws D) (s : TimerList D) : Type 0 where
  pub distinct : Distinct (L.contents s.links)
  pub nonnull : NotIn null (L.contents s.links)
  pub sorted : Sorted s.timers (L.contents s.links)

-- A timer that is in no list.
pub record IsLoose (D : Dl) (L : DlLaws D) (s : TimerList D) (t : ℕ) : Type 0 where
  pub out : NotIn t (L.contents s.links)
  pub some_timer : t ≢ null
  pub no_prev : D.prev s.links t ≡ null
  pub no_next : D.next s.links t ≡ null

module _ (D : Dl) (L : DlLaws D) (s : TimerList D) (t : ℕ) where
  pub insert-Found :
      (us : List ℕ)
      → L.contents s.links ≡ us
      → IsSorted D L s
      → IsLoose D L s t
      → D.head s.links ≢ null
      → Found D L s.timers s.links t us
          (walk_back D (length us) s.timers s.links (D.head s.links) t)
      → Inserted s.timers t us (L.contents (timer_queue D (length us) s t).links)
  insert-Found us w v o h f =
      let was = w ∙ f.was in
      let d = subst Distinct was v.distinct in
      let got = L.contents-append_elem s.links f.before f.elem t f.after was o.out d in
      let split = append_assoc f.elem f.before (t ∷ f.after) in
      let below =
        below_of_Sorted s.timers (s.timers t).expiration f.elem f.before f.after f.earlier
          (subst (Sorted s.timers) was v.sorted) in
      let whole = append_assoc f.elem f.before f.after in
      let all = subst Distinct (sym split) (
        Distinct-insert t (f.before ++ f.elem ∷ []) f.after (subst (NotIn t) (was ∙ whole) o.out)
          (subst Distinct (was ∙ whole) v.distinct)) in
      let back = L.prev_after (D.append_elem s.links f.elem t) f.before f.elem t f.after got all in
      let here = NotIn-at null f.elem f.before f.after (subst (NotIn null) was v.nonnull) in
      let run =
        queue_found D (length us) s t (D.append_elem s.links f.elem t) h f.is
          (λ k. here (sym back ∙ k)) in
      record {
        before = f.before ++ f.elem ∷ [];
        after = f.after;
        was = f.was ∙ whole;
        is = ap L.contents run ∙ got ∙ split;
        below = below;
        from = f.from;
        sorted = subst (Sorted s.timers) (sym (ap L.contents run ∙ got ∙ split)) (
            Sorted-insert s.timers t (f.before ++ f.elem ∷ []) f.after below f.from
              (subst (Sorted s.timers) (was ∙ whole) v.sorted));
      }

  pub insert_front :
      (us : List ℕ)
      → L.contents s.links ≡ us
      → IsSorted D L s
      → IsLoose D L s t
      → D.head s.links ≢ null
      → walk_back D (length us) s.timers s.links (D.head s.links) t ≡ s.links
      → AllFrom s.timers (s.timers t).expiration us
      → Inserted s.timers t us (L.contents (timer_queue D (length us) s t).links)
  insert_front us w v o h e f =
      let run = queue_front D (length us) s t h e o.no_prev o.no_next in
      let is = ap L.contents run ∙ L.contents-prepend s.links t o.out ∙ ap (λ k. t ∷ k) w in
      record {
        before = [];
        after = us;
        was = refl;
        is = is;
        below = tt;
        from = f;
        sorted = subst (Sorted s.timers) (sym is) (f, subst (Sorted s.timers) w v.sorted);
      }
