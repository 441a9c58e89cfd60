-- ===== src/Arena/Tests.antt =====
-- src/mochi-arena.c: the arena at concrete inputs.
use mochi_margo.Base.{◌≡◌, refl, [], some, null, arith}
use mochi_margo.Arena.Defs.{Arena, create}
use mochi_margo.Arena.Laws.{Made, create_makes, IsArena}

create_makes_example : (s : Arena) × (create 64 (λ a. 0) 20 4 ≡ some s) × Made 20 4 s
create_makes_example = create_makes 64 (λ a. 0) 20 4 (omega arith) (omega arith)

-- Objects of 24 bytes, three in a block, of which none is free.
abbrev full : Arena
full = record {
  object_size = 24;
  block_capacity = 3;
  free_list = null;
  blocks = null;
  words = λ a. 7;
}

full-IsArena : IsArena full []
full-IsArena = record {
  chain = refl;
  spread = tt;
  some_size = omega arith;
  some_capacity = omega arith;
}
