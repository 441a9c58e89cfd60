-- ===== src/Arena/Defs.antt =====
-- src/mochi-arena.c: the arena, with the memory as the words that stand at addresses. The spinlock
-- makes each operation one step. What `calloc` and `malloc` return is an argument.
use mochi_margo.Base.{
  ℕ, zero, suc, ◌+◌, ◌-◌, ◌*◌, ◌&&◌, leb, ltb, ◌==◌, if◌then◌else◌, update, null, Option, none,
  some, List, [], ◌∷◌, add_u64, mul_u64, sub_u64, u64_max,
}
use Prim.Native.Nat.{bit_and}

-- `struct mochi_arena`, with the memory of the blocks and their objects.
pub record Arena : Type 0 where
  pub object_size : ℕ
  pub block_capacity : ℕ
  pub free_list : ℕ
  pub blocks : ℕ
  pub words : ℕ → ℕ

-- `round_up`; the complement of a word is its difference from the greatest one.
unfoldable pub round_up : (x a : ℕ) → ℕ
round_up x a = bit_and (add_u64 x (sub_u64 a 1)) (u64_max - sub_u64 a 1)

-- `mochi_arena_create`, at the address that `calloc` returned, where a pointer has 8 bytes.
unfoldable pub create : (arena : ℕ) → (ℕ → ℕ) → (object_size initial_capacity : ℕ) → Option Arena
create arena words object_size initial_capacity =
    if arena == null
    then none
    else some (record {
      object_size = round_up (if ltb object_size 8 then 8 else object_size) 8;
      block_capacity = if ltb initial_capacity 1 then 1 else initial_capacity;
      free_list = null;
      blocks = null;
      words = words;
    })

-- The loop of `mochi_arena_grow`: n rounds from i on, which give the words and the free list.
unfoldable pub thread : (n i base size : ℕ) → (ℕ → ℕ) → ℕ → (ℕ → ℕ) × ℕ
thread zero i base size words free = (words, free)
thread (suc n) i base size words free =
    let obj = base + i * size in thread n (suc i) base size (update words obj free) obj

-- The size of a block's header and of the block.
abbrev pub header : ℕ
header = 8

unfoldable pub block_size : Arena → ℕ
block_size s = add_u64 header (mul_u64 s.block_capacity s.object_size)

-- `mochi_arena_grow`, at the address that `malloc` returned for `block_size`; none is the result -1.
unfoldable pub grow : Arena → (block : ℕ) → Option Arena
grow s block =
    let (words, free) =
      thread s.block_capacity 0 (block + header) s.object_size (update s.words block s.blocks)
        s.free_list in
    if block == null
    then none
    else some (record s { blocks = block; words = words; free_list = free })

-- `memset(obj, 0, size)`
abbrev pub wiped : (ℕ → ℕ) → (obj size : ℕ) → ℕ → ℕ
wiped words obj size a = if leb obj a && ltb a (obj + size) then 0 else words a

-- `mochi_arena_get` after the free list was filled.
unfoldable pub take_first : Arena → ℕ × Arena
take_first s = (
  s.free_list,
  record s { free_list = s.words s.free_list; words = wiped s.words s.free_list s.object_size },
)

-- `mochi_arena_get` on an arena, at the address that `malloc` returns if it is called.
unfoldable pub get : Arena → (block : ℕ) → ℕ × Arena
unfolding take_first
get s block =
    if s.free_list == null
    then elim (grow s block) [ none ↦ (null, s) | some t ↦ take_first t ]
    else take_first s

-- `mochi_arena_release` on an arena.
unfoldable pub release : Arena → ℕ → Arena
release s obj =
    if obj == null then s else record s { words = update s.words obj s.free_list; free_list = obj }

-- `mochi_arena_destroy`: the blocks in the order in which they are freed.
unfoldable pub destroy : (fuel : ℕ) → (ℕ → ℕ) → (block : ℕ) → List ℕ
destroy zero words block = []
destroy (suc fuel) words block =
    let rest = destroy fuel words (words block) in if block == null then [] else block ∷ rest
