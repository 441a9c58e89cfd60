-- ===== src/BulkPool/Tests.antt =====
-- src/margo-bulk-pool.c: runs, and the theorems at concrete pools.
use mathlib.Core.Logic.Or
use mathlib.Core.HLevel.{⊥_prop}
use mathlib.Core.List.{Memᴰ, Nodup, Perm, Pairwise, Nodup-cons, not-mem-nil, eq-or-mem_of_mem-cons}
use mochi_margo.Base.{
  ◌+◌, ◌≡◌, refl, true, not, ◌&&◌, none, some, List, [], ◌∷◌, arith, if◌then◌else◌, ltb, leb,
}
use mochi_margo.Mercury.{success}
use mochi_margo.BulkPool.Defs.{Pool, done, pool_get, pool_tryget, BulkInfo, pool_release, outside}
use mochi_margo.BulkPool.Create.{Calls, Created, overflows, pool_create}
use mochi_margo.BulkPool.CreateLaws.{
  create-IsClean, create_fault_iff, attempted, IsClean, NonNull, is_none,
}
use mochi_margo.BulkPool.Stack.{
  IsValid, contents, IsAccepted, map_done, view, pop, get_refines, release_refines,
}
use mochi_margo.BulkPool.Lending.{Reach, here, next, get, handles_are_kept}
use mochi_margo.BulkPool.Set.{Poolset, poolset_get}
use mochi_margo.BulkPool.SetLaws.{serve, Owned, poolset_get_serves}

-- Handle 11 stands for the slice at 4096, and 12 for the one at 4160.
abbrev calls : Calls
calls = record {
  malloc_pool = true;
  memalign = some 4096;
  calloc_bulks = true;
  bulk_create = λ i buf size flag. (success, i + 11);
  mutex_create = true;
  cond_create = true;
}

abbrev info : BulkInfo
info = record {
  get_size = λ b. 64;
  access = λ b size flag. some (if ltb b 12 then (4096, 64) else (4160, 64));
}

-- Two handles of 64 bytes, both free, and the same with the first one lent.
abbrev fresh : Pool
fresh = record { buf = 4096; bulks = 11 ∷ 12 ∷ []; count = 2; size = 64; num_free = 2; flag = 1 }

abbrev one_lent : Pool
one_lent = record fresh { num_free = 1 }

fresh-IsValid : IsValid fresh
fresh-IsValid = omega arith

one_lent-IsValid : IsValid one_lent
one_lent-IsValid = omega arith

created_pool :
    pool_create calls 2 64 1 ≡ some (record { ret = success; pool = some fresh; freed = [] })
unfolding pool_create
created_pool = refl

accepted : IsAccepted info one_lent 11
unfolding outside
accepted = record {
  not_null = λ e. absurd (omega arith);
  same_size = refl;
  segment = (4096, 64);
  accessed = refl;
  inside = refl;
}

handles-NonNull : NonNull calls.bulk_create
handles-NonNull i a s f e = λ z. absurd (omega arith)

create-IsClean_example :
    (r : Created) × (pool_create calls 2 64 1 ≡ some r) × IsClean (attempted calls 2 64 1) r
create-IsClean_example = create-IsClean calls 2 64 1 4096 refl (omega arith) handles-NonNull

create_fault_iff_example :
    is_none (pool_create (record calls { memalign = none }) 2 64 1)
    ≡ (not (overflows 2 64) && true && true)
create_fault_iff_example = create_fault_iff (record calls { memalign = none }) 2 64 1

get_refines_example :
    (map_done view (pool_get (some one_lent)), map_done view (pool_tryget (some one_lent)))
    ≡ pop (12 ∷ [])
get_refines_example = get_refines one_lent one_lent-IsValid

release_refines_example :
    map_done contents (pool_release info (some one_lent) 11) ≡ done (11 ∷ 12 ∷ [])
release_refines_example = release_refines info one_lent 11 one_lent-IsValid accepted

taken : Reach info (record { pool = fresh; lent = [] }) (record { pool = one_lent; lent = 11 ∷ [] })
unfolding pool_get
taken = next here (get fresh one_lent 11 [] refl)

distinct : Nodup (contents fresh)
distinct = Nodup-cons.1 (
  λ m. Or.elim ⊥_prop (eq-or-mem_of_mem-cons m) (λ e. omega (arith, e)) not-mem-nil,
  Nodup-cons.1 (not-mem-nil, Pairwise.nil),
)

handles_are_kept_example :
    Nodup (11 ∷ contents one_lent)
    × Perm (11 ∷ contents one_lent) (contents fresh)
    × (1 + one_lent.num_free ≡ one_lent.count)
    × IsValid one_lent
handles_are_kept_example =
    handles_are_kept fresh (record { pool = one_lent; lent = 11 ∷ [] }) fresh-IsValid refl distinct
      taken

-- A set of two pools, of 64 and of 128 bytes.
abbrev large : Pool
large = record { buf = 8192; bulks = 21 ∷ 22 ∷ []; count = 2; size = 128; num_free = 2; flag = 1 }

abbrev set : Poolset
set = record { pools = fresh ∷ large ∷ []; nbufs = 2; first_size = 64; size_multiple = 2 }

abbrev set_info : BulkInfo
set_info = record {
  get_size = λ b. if ltb b 20 then 64 else 128;
  access = λ b size flag. some (if ltb b 20 then (4096, 64) else (8192, 128));
}

fresh-Owned : Owned set_info fresh
unfolding outside
fresh-Owned b (Memᴰ.head e) = rw e (record {
  not_null = λ z. absurd (omega arith);
  same_size = refl;
  segment = (4096, 64);
  accessed = refl;
  inside = refl;
})
fresh-Owned b (Memᴰ.tail (Memᴰ.head e)) = rw e (record {
  not_null = λ z. absurd (omega arith);
  same_size = refl;
  segment = (4096, 64);
  accessed = refl;
  inside = refl;
})
fresh-Owned b (Memᴰ.tail (Memᴰ.tail m)) = elim m [ ]

large-Owned : Owned set_info large
unfolding outside
large-Owned b (Memᴰ.head e) = rw e (record {
  not_null = λ z. absurd (omega arith);
  same_size = refl;
  segment = (8192, 128);
  accessed = refl;
  inside = refl;
})
large-Owned b (Memᴰ.tail (Memᴰ.head e)) = rw e (record {
  not_null = λ z. absurd (omega arith);
  same_size = refl;
  segment = (8192, 128);
  accessed = refl;
  inside = refl;
})
large-Owned b (Memᴰ.tail (Memᴰ.tail m)) = elim m [ ]

poolset_get_serves_example :
    poolset_get (some set) 100 ≡ serve (λ p. leb 100 p.size) (λ p. pool_get (some p)) set.pools
poolset_get_serves_example = poolset_get_serves set 100 (refl, (refl, tt))

abbrev made_pools : List Pool
made_pools = fresh ∷ record fresh { size = 128 } ∷ []
