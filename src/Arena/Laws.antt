-- ===== src/Arena/Laws.antt =====
-- src/mochi-arena.c: what `mochi_arena_create`, `mochi_arena_get` and `mochi_arena_release` give.
use Prim.Native.Nat.{bit_and}
use mochi_margo.Base.Bits.{bit_and_not_seven}
use mochi_margo.Base.{
  ℕ, zero, suc, ◌+◌, ◌-◌, ◌*◌, ◌/◌, ◌%◌, ◌^◌, ◌≤◌, ◌<◌, ◌≡◌, ◌≢◌, ◌⊎◌, inl, inr, refl, ap, ◌∙◌, sym,
  subst, ltb, if◌then◌else◌, update, null, List, [], ◌∷◌, some, arith, Bool-cases, add_u64, sub_u64,
  u64_max,
}
use mochi_margo.Arena.Defs.{
  Arena, round_up, create, thread, header, grow, wiped, take_first, get, release,
}
use mochi_margo.Arena.FreeList.{
  Chain, Apart, Spread, Chain-same, update-SameAt, wiped-SameAt, objects, objects-Spread,
  thread-Chain,
}

round_up_lem : (x : ℕ) → x + 7 < 2 ^ 64 → round_up x 8 ≡ (x + 7) / 8 * 8
unfolding round_up
round_up_lem x h =
    let sum : add_u64 x 7 ≡ x + 7 = omega (arith, h) in
    let low : sub_u64 8 1 ≡ 7 = omega arith in
    ap (λ k. bit_and (add_u64 x k) (u64_max - k)) low
    ∙ ap (λ k. bit_and k (u64_max - 7)) sum
    ∙ bit_and_not_seven (x + 7) h

-- What `mochi_arena_create` makes.
pub record Made (object_size initial_capacity : ℕ) (s : Arena) : Type 0 where
  pub large : object_size ≤ s.object_size
  pub links_fit : 8 ≤ s.object_size
  pub aligned : s.object_size % 8 ≡ 0
  pub tight : (s.object_size < object_size + 8) ⊎ (s.object_size ≡ 8)
  pub capacity : initial_capacity ≤ s.block_capacity
  pub some_capacity : 0 < s.block_capacity
  pub empty : (s.free_list ≡ null) × (s.blocks ≡ null)

made :
    (arena : ℕ) (words : ℕ → ℕ) (object_size initial_capacity size : ℕ)
    → arena ≢ null
    → object_size + 7 < 2 ^ 64
    → round_up (if ltb object_size 8 then 8 else object_size) 8 ≡ size
    → ((if ltb object_size 8 then 8 else object_size) + 7) / 8 * 8 ≡ size
    → (s : Arena) × (create arena words object_size initial_capacity ≡ some s)
      × Made object_size initial_capacity s
unfolding create
made arena words object_size initial_capacity size some_arena h e f = (
  record {
    object_size = size;
    block_capacity = if ltb initial_capacity 1 then 1 else initial_capacity;
    free_list = null;
    blocks = null;
    words = words;
  },
  ground (arith, some_arena, e),
  record {
    large = ground (arith, f);
    links_fit = ground (arith, f);
    aligned = ground (arith, f);
    tight = elim (Bool-cases (ltb object_size 8)) [
      | inl l ↦ inr (ground (arith, f, l))
      | inr l ↦ inl (ground (arith, f, l))
    ];
    capacity = ground arith;
    some_capacity = ground arith;
    empty = (refl, refl);
  },
)

-- A size whose rounding fits a `size_t`, where the arena itself could be allocated, gives an arena without objects, whose objects have at
-- least that size and room for a pointer, are aligned to 8 bytes and are less than 8 bytes larger
-- than they must be, and whose blocks hold at least as many objects as was asked, and at least one.
pub create_makes :
    (arena : ℕ) (words : ℕ → ℕ) (object_size initial_capacity : ℕ)
    → arena ≢ null
    → object_size + 7 < 2 ^ 64
    → (s : Arena) × (create arena words object_size initial_capacity ≡ some s)
      × Made object_size initial_capacity s
create_makes arena words object_size initial_capacity some_arena h =
    let x = if ltb object_size 8 then 8 else object_size in
    made arena words object_size initial_capacity (round_up x 8) some_arena h refl
      (sym (round_up_lem x (ground (arith, h))))

-- An arena whose free objects are those of the list.
pub record IsArena (s : Arena) (us : List ℕ) : Type 0 where
  pub chain : Chain s.words s.free_list us
  pub spread : Spread s.object_size us
  pub some_size : 0 < s.object_size
  pub some_capacity : 0 < s.block_capacity

-- The object u is taken: its bytes are zero, no other word changes, and the others stay free.
pub record Taken (s : Arena) (u : ℕ) (us : List ℕ) (r : ℕ × Arena) : Type 0 where
  pub object : r.0 ≡ u
  pub valid : IsArena r.1 us
  pub zeroed : (x : ℕ) → u ≤ x → x < u + r.1.object_size → r.1.words x ≡ 0
  pub same_size : r.1.object_size ≡ s.object_size

take_first-Taken :
    (s : Arena) (u : ℕ) (us : List ℕ) → IsArena s (u ∷ us) → Taken s u us (take_first s)
unfolding take_first
take_first-Taken s u us v =
    let at = v.chain.0 in
    record {
      object = at;
      valid = record {
        chain =
            Chain-same s.words (wiped s.words s.free_list s.object_size) (s.words s.free_list) us
              (wiped-SameAt s.words s.object_size s.free_list us v.some_size
                (subst (λ k. Apart s.object_size k us) (sym at) v.spread.0))
              (subst (λ k. Chain s.words (s.words k) us) (sym at) v.chain.2);
        spread = v.spread.1;
        some_size = v.some_size;
        some_capacity = v.some_capacity;
      };
      zeroed = λ x l h. ground (arith, at, l, h);
      same_size = refl;
    }

-- The pool of free objects that a get takes from, where the block was allocated if none is free.
abbrev pub refilled : Arena → List ℕ → ℕ → List ℕ
refilled s [] block = objects (block + header) s.object_size s.block_capacity
refilled s (u ∷ us) block = u ∷ us

grown :
    (s : Arena) (block : ℕ)
    → block ≢ null
    → IsArena s []
    → (t : Arena) × (grow s block ≡ some t)
      × IsArena t (refilled s [] block)
      × (t.object_size ≡ s.object_size)
unfolding grow
grown s block b v =
    let r =
      thread s.block_capacity 0 (block + header) s.object_size (update s.words block s.blocks)
        s.free_list in
    (
      record s { blocks = block; words = r.0; free_list = r.1 },
      ground (arith, b),
      record {
        chain =
            subst (λ k. Chain r.0 r.1 (objects (block + header) s.object_size k)) (omega arith)
              (thread-Chain s.block_capacity 0 (block + header) s.object_size
                (update s.words block s.blocks) s.free_list (omega (arith, b)) v.some_size v.chain);
        spread = objects-Spread (block + header) s.object_size s.block_capacity;
        some_size = v.some_size;
        some_capacity = v.some_capacity;
      },
      refl,
    )

get_ready : (s : Arena) (block : ℕ) → s.free_list ≢ null → get s block ≡ take_first s
unfolding get
get_ready s block h = ground (arith, h)

get_grown :
    (s t : Arena) (block : ℕ)
    → s.free_list ≡ null
    → grow s block ≡ some t
    → get s block ≡ take_first t
unfolding get
get_grown s t block h e = rw e (ground (arith, h))

-- `mochi_arena_get` on an arena whose free list is that of the list us: if us is empty it takes
-- the last object of a new block, and the other objects of the block become the free list, else it
-- takes the head of us. What it gives has only zero bytes, and the free list that it leaves runs
-- through the rest, of which no two objects overlap. The block that `malloc` gives is not null.
pub get_takes :
    (s : Arena) (us : List ℕ) (block : ℕ)
    → IsArena s us
    → block ≢ null
    → (u : ℕ) × (rest : List ℕ) × (refilled s us block ≡ u ∷ rest) × Taken s u rest (get s block)
get_takes s (u ∷ us) block v b = (
  u,
  us,
  refl,
  rw (get_ready s block (λ e. v.chain.1 (sym v.chain.0 ∙ e))) (take_first-Taken s u us v),
)
get_takes s [] block v b = new_block s.block_capacity refl
  where
    new_block :
        (n : ℕ)
        → s.block_capacity ≡ n
        → (u : ℕ) × (rest : List ℕ) × (refilled s [] block ≡ u ∷ rest)
          × Taken s u rest (get s block)
    new_block zero e = absurd (omega (arith, v.some_capacity, e))
    new_block (suc n) e =
        let (t, run, w, same) = grown s block b v in
        let shape = ap (λ k. objects (block + header) s.object_size k) e in
        let d =
          take_first-Taken t (block + header + n * s.object_size)
            (objects (block + header) s.object_size n) (subst (IsArena t) shape w) in
        (
          block + header + n * s.object_size,
          objects (block + header) s.object_size n,
          shape,
          rw (get_grown s t block v.chain run) (record {
            object = d.object;
            valid = d.valid;
            zeroed = d.zeroed;
            same_size = d.same_size ∙ same;
          }),
        )

release_fields :
    (s : Arena) (obj : ℕ)
    → obj ≢ null
    → release s obj ≡ record s { words = update s.words obj s.free_list; free_list = obj }
unfolding release
release_fields s obj h = ground (arith, h)

released :
    (s : Arena) (us : List ℕ) (obj : ℕ)
    → IsArena s us
    → obj ≢ null
    → Apart s.object_size obj us
    → IsArena (record s { words = update s.words obj s.free_list; free_list = obj }) (obj ∷ us)
released s us obj v h a =
    let here : update s.words obj s.free_list obj ≡ s.free_list = ground arith in
    record {
      chain = (
        refl,
        h,
        subst (λ k. Chain (update s.words obj s.free_list) k us) (sym here)
            (Chain-same s.words (update s.words obj s.free_list) s.free_list us
              (update-SameAt s.words s.object_size obj s.free_list us v.some_size a) v.chain),
      );
      spread = (a, v.spread);
      some_size = v.some_size;
      some_capacity = v.some_capacity;
    }

-- An object that is not null and overlaps no free object is given back: the next get takes it again, wiped, without
-- a call of `malloc`, and leaves the free list as it was before the release.
pub release-get :
    (s : Arena) (us : List ℕ) (obj block : ℕ)
    → IsArena s us
    → obj ≢ null
    → Apart s.object_size obj us
    → Taken s obj us (get (release s obj) block)
release-get s us obj block v h a =
    let t = record s { words = update s.words obj s.free_list; free_list = obj } in
    let d = take_first-Taken t obj us (released s us obj v h a) in
    rw (release_fields s obj h, get_ready t block h)
      (record { object = d.object; valid = d.valid; zeroed = d.zeroed; same_size = d.same_size })
