-- ===== src/EfirstPool/PrioLaws.antt =====
-- src/margo-efirst-pool.c: the heap of new units as a priority queue.
use mochi_margo.Base.{
  ℕ, zero, suc, ◌+◌, ◌-◌, ◌*◌, ◌≤◌, ◌<◌, ◌≡◌, ◌≢◌, refl, ◌∙◌, Bool, false, ◌&&◌, not, some, arith,
  leb, ◌==◌, update, u64_max, add_u64, sub_u64,
}
use mochi_margo.EfirstPool.Heap.{
  IsHeap, root_least, IsHeap-ext, one_if, count, count-zero, count-snoc, count-last, count-update,
  index_of_count,
}
use mochi_margo.EfirstPool.Heap.Up.{up_loop-IsSifted}
use mochi_margo.EfirstPool.Heap.Down.{down_loop, down_loop-IsSifted}
use mochi_margo.EfirstPool.Queue.{
  WorkUnit, Pool, key, grown, mark_in, flip_in, queue_push_prio, queue_pop_prio,
}

-- The array of the heap: in order, and no longer than the memory that it has.
pub record IsPrio (s : Pool) : Type 0 where
  pub heap : IsHeap (key s.units) s.entries s.size
  pub room : s.size ≤ s.capacity
  pub some_room : 1 ≤ s.capacity
  pub word : s.capacity ≤ u64_max

-- How often a unit stands in the heap.
abbrev pub prio_count : ℕ → Pool → ℕ
prio_count a s = count a s.entries s.size

pub key-mark_in : (units : ℕ → WorkUnit) (p q : ℕ) → key (mark_in units p) q ≡ key units q
key-mark_in units p q = ground arith

pub key-flip_in : (units : ℕ → WorkUnit) (p q : ℕ) → key (flip_in units p) q ≡ key units q
key-flip_in units p q = ground arith

-- What a push on the heap leaves.
pub record Pushed (s : Pool) (p : ℕ) (t : Pool) : Type 0 where
  pub valid : IsPrio t
  pub added : (a : ℕ) → prio_count a t ≡ prio_count a s + one_if a p
  pub longer : t.size ≡ s.size + 1
  pub units : t.units ≡ mark_in s.units p
  pub same_first : t.first ≡ s.first
  pub same_last : t.last ≡ s.last
  pub same_fifo : t.fifo_size ≡ s.fifo_size

pub push_prio_adds :
    (grows : Bool) (s : Pool) (p : ℕ)
    → IsPrio s
    → s.capacity * 2 ≤ u64_max
    → (leb s.capacity s.size && not grows) ≡ false
    → (t : Pool) × (queue_push_prio grows s p ≡ some t) × Pushed s p t
unfolding queue_push_prio
push_prio_adds grows s p v bound fits =
    let n = s.size in
    let e = s.entries in
    let more : add_u64 n 1 ≡ n + 1 = omega (arith, v.room, v.some_room) in
    let (r, run, sifted) =
      up_loop-IsSifted (key s.units) (n + 1) e (n + 1) p (n + 1) (omega arith) (omega arith)
        (record {
          inside = omega arith;
          edges = λ c two q r t. v.heap c two (omega arith);
          bridged = λ c q r t. absurd (omega arith);
        })
        (λ c q r. absurd (omega arith)) in
    let t = record s { entries = r; capacity = grown s; size = n + 1; units = mark_in s.units p } in
    (
      t,
      rw (fits, run, more) refl,
      record {
        valid = record {
          heap =
              IsHeap-ext (key s.units) (key t.units) r (n + 1)
                (λ i q l. key-mark_in s.units p (r i)) sifted.heap;
          room = ground (arith, v.room, v.some_room);
          some_room = ground (arith, v.some_room);
          word = ground (arith, v.word);
        };
        added = λ a. sifted.kept a ∙ count-snoc a e n (n + 1) p (omega arith);
        longer = refl;
        units = refl;
        same_first = refl;
        same_last = refl;
        same_fifo = refl;
      },
    )

-- What a pop from the heap returns and leaves.
pub record Popped (s : Pool) (p : ℕ) (t : Pool) : Type 0 where
  pub valid : IsPrio t
  pub removed : (a : ℕ) → prio_count a s ≡ prio_count a t + one_if a p
  pub least : (a : ℕ) → 0 < prio_count a s → key s.units p ≤ key s.units a
  pub shorter : t.size + 1 ≡ s.size
  pub units : t.units ≡ flip_in s.units p
  pub same_first : t.first ≡ s.first
  pub same_last : t.last ≡ s.last
  pub same_fifo : t.fifo_size ≡ s.fifo_size

count_without_root :
    (a : ℕ) (e : ℕ → ℕ) (n i : ℕ)
    → i ≡ suc n
    → count a (update e 1 (e i)) n + one_if a (e 1) ≡ count a e i
count_without_root a e zero i h =
    rw h (ground (arith, count-zero a e, count-zero a (update e 1 (e 1)), count-last a e 0 1 refl))
count_without_root a e (suc n) i h = omega (
  arith,
  count-last a e (suc n) i h,
  count-update a e (suc n) 1 (e i) (omega arith) (omega arith),
)

least_of_all :
    (units : ℕ → WorkUnit) (e : ℕ → ℕ) (n a : ℕ)
    → IsHeap (key units) e n
    → 0 < count a e n
    → key units (e 1) ≤ key units a
least_of_all units e n a h c =
    let (i, one, inside, at) = index_of_count a e n c in
    rw (← at) (root_least (key units) e n i h one inside)

pop_run :
    (s : Pool) (r : ℕ → ℕ) (n : ℕ)
    → (s.size == 0) ≡ false
    → sub_u64 s.size 1 ≡ n
    → down_loop (key s.units) (n + 1) s.entries n (s.entries s.size) 1 ≡ some r
    → queue_pop_prio s
      ≡ some
          (s.entries 1, record s { entries = r; size = n; units = flip_in s.units (s.entries 1) })
unfolding queue_pop_prio
pop_run s r n nonzero less run = rw (nonzero, less, run) refl

pub pop_prio_removes :
    (s : Pool)
    → IsPrio s
    → s.size ≢ 0
    → (t : Pool) × (queue_pop_prio s ≡ some (s.entries 1, t)) × Popped s (s.entries 1) t
pop_prio_removes s v some_left =
    let n = s.size - 1 in
    let e = s.entries in
    let less : sub_u64 s.size 1 ≡ n = omega (arith, v.room, v.word) in
    let nonzero : (s.size == 0) ≡ false = ground arith in
    let whole : s.size ≡ suc n = omega arith in
    let (r, run, sifted) =
      down_loop-IsSifted (key s.units) (n + 1) e n (e s.size) 1 (omega arith) (omega arith)
        (record {
          inside = omega arith;
          edges = λ c two q r t. v.heap c two (omega arith);
          bridged = λ c q r t. absurd (omega arith);
        })
        (λ two. absurd (omega arith)) in
    let t = record s { entries = r; size = n; units = flip_in s.units (e 1) } in
    (
      t,
      pop_run s r n nonzero less run,
      record {
        valid = record {
          heap =
              IsHeap-ext (key s.units) (key t.units) r n (λ i q l. key-flip_in s.units (e 1) (r i))
                sifted.heap;
          room = omega (arith, v.room);
          some_room = v.some_room;
          word = v.word;
        };
        removed = λ a. omega (arith, sifted.kept a, count_without_root a e n s.size whole);
        least = λ a c. least_of_all s.units e s.size a v.heap c;
        shorter = omega arith;
        units = refl;
        same_first = refl;
        same_last = refl;
        same_fifo = refl;
      },
    )
