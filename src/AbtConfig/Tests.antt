-- ===== src/AbtConfig/Tests.antt =====
-- src/margo-abt-config.c: the theorems at concrete arrays.
use Prim.Native.String.{String}
use mathlib.Core.Option.{some-injective}
use mochi_margo.Mercury.{permission}
use mochi_margo.Base.Text.{codes, same_text}
use mochi_margo.Base.{
  ℕ, zero, suc, ◌+◌, ◌-◌, ltb, Bool-cases, inl, inr, ◌<◌, ◌≡◌, ◌≢◌, ◌∙◌, sym, refl, ap, subst, Bool,
  true, false, ◌==◌, ◌&&◌, not, null, if◌then◌else◌, Option, none, some, List, [], ◌∷◌, length,
  get_elem?, arith,
}
use mochi_margo.Registry.Defs.{find_first, modify_at}
use mochi_margo.AbtConfig.Json.{
  Json, xstream_validate_json, get, elements_of, sched_validate_json, pool_validate_json,
}
use mochi_margo.AbtConfig.Init.{abt_destroy}
use mochi_margo.AbtConfig.Destroy.{gives_pool, gives_xstream, destroy_gives_back}
use mochi_margo.AbtConfig.Checked.{known, checked_references_found}
use mochi_margo.AbtConfig.Xstreams.{all_referred}
use mochi_margo.Registry.Totals.{number}
use mochi_margo.AbtConfig.Entries.{
  PoolEntry, XstreamEntry, Abt, find_pool_by_handle, find_pool_by_name, find_xstream_by_name,
  find_xstream_by_handle,
}
use mochi_margo.AbtConfig.Names.{taken, generate_unused_name, generate_terminates}
use mochi_margo.AbtConfig.Pools.{name_or_unused}
use mochi_margo.AbtConfig.Xstreams.{Argobots, Makers, sched_init_from_json, counted}
use mochi_margo.AbtConfig.Arrays.{
  add_pool_from_json, add_xstream_from_json, add_external_xstream, remove_pool, remove_xstream,
}
use mochi_margo.AbtConfig.Counts.{held, one_if, times, reached, Fits, Unique}
use mochi_margo.AbtConfig.Creation.{Ends, counted-Ends}
use mochi_margo.AbtConfig.Usage.{Inv, Fresh, Roomy, Starts}
use mochi_margo.AbtConfig.Lifetime.{
  here, next, add_pool, add_xstream, xstream_removed, usage_is_kept, run_pool_stays,
  refused_external_lowers, removed_pool_was_idle,
}

-- Numbered names: as many letters as the number says.
abbrev numbered : ℕ → String
numbered zero = ""
numbered (suc n) = String.◌∷◌ "x" (numbered n)

numbered-length : (n : ℕ) → length (codes (numbered n)) ≡ n
numbered-length zero = refl
numbered-length (suc n) = ap suc (numbered-length n)

distinct : (i j : ℕ) → numbered i ≡ numbered j → i ≡ j
distinct i j e = sym (numbered-length i) ∙ ap (λ s. length (codes s)) e ∙ numbered-length j

abbrev first_code : List ℕ → ℕ
first_code [] = 0
first_code (c ∷ cs) = c

plain : (j : ℕ) → numbered j ≢ "__primary__"
plain zero e = absurd (omega (arith, ap (λ s. first_code (codes s)) e))
plain (suc j) e = absurd (omega (arith, ap (λ s. first_code (codes s)) e))

-- Stream 5 runs pool 7, with scheduler 3; the scheduler of stream 6 also has pool 9.
abbrev world : Argobots
world = record {
  main_sched = λ x. if x == 5 then some 3 else if x == 6 then some 4 else none;
  sched_pools = λ s.
      if s == 3 then some (some 7 ∷ []) else if s == 4 then some (some 7 ∷ some 9 ∷ []) else none;
}

abbrev pool_seven : PoolEntry
pool_seven = record {
  name = "seven";
  pool = 7;
  kind = "fifo_wait";
  access = some "mpmc";
  refcount = 0;
  num_xstreams = 1;
  margo_free_flag = true;
  used_by_primary = false;
}

abbrev stream_five : XstreamEntry
stream_five = record {
  name = "five";
  xstream = 5;
  refcount = 0;
  sched_type = "basic_wait";
  margo_free_flag = true;
}

abbrev arrays : Abt
arrays = record {
  pools = pool_seven ∷ [];
  pools_cap = 4;
  xstreams = stream_five ∷ [];
  xstreams_cap = 2;
  freed = [];
  joined = [];
}

one_pool : Unique arrays.pools
one_pool h real = ground arith

few : (h : ℕ) → held h arrays.pools < 4294967296
few h = ground arith

arrays-Inv : Inv world arrays
arrays-Inv = record { unique = one_pool; few = few; counted = λ h. ground arith; real = refl }

-- A configuration in which nothing stands.
abbrev empty_json : Json
empty_json = record {
  Value = Bool;
  is_object = λ v. true;
  is_string = λ v. false;
  is_int = λ v. false;
  is_array = λ v. false;
  field = λ v key. none;
  text = λ v. "";
  integer = λ v. none;
  elements = λ v. [];
}

abbrev makers : Makers
makers = record {
  create_pool = λ r. some 8;
  create_sched = λ kind pools. some 3;
  create_xstream = λ s. some 5;
  self = some 1;
  set_main_sched = λ x s. true;
}

makers-Fresh : Fresh makers arrays.pools
unfolding find_pool_by_handle find_first
makers-Fresh r p e =
    subst (λ q. find_pool_by_handle arrays.pools q ≡ none) (some-injective _ _ e) refl

abbrev empty_size : ℕ → Option ℕ
empty_size pool = some 0

-- Streams from 100 on are made with the scheduler of the number behind 100.
abbrev growing : Argobots
growing = record world {
  main_sched = λ x. if ltb x 100 then world.main_sched x else some (x - 100);
}

abbrev growing_makers : Makers
growing_makers = record makers { create_xstream = λ s. some (s + 100) }

growing-Starts : Starts growing growing_makers
growing-Starts s = (s + 100, refl, omega arith, ground arith)

growing-Inv : Inv growing arrays
growing-Inv = record { unique = one_pool; few = few; counted = λ h. ground arith; real = refl }

growing-Roomy : Roomy growing arrays.pools
growing-Roomy none h = ground arith
growing-Roomy (some s) h = elim (Bool-cases (s == 3)) [
  | inl y ↦ rw y (ground arith)
  | inr n ↦ elim (Bool-cases (s == 4)) [
    | inl y ↦ rw (n, y) (ground arith)
    | inr m ↦ rw (n, m) (ground arith)
  ]
]

-- A stream is added, a pool is added, and the first stream is removed.
abbrev with_xstream : Abt
with_xstream =
    (add_xstream_from_json empty_json numbered false true true true growing_makers growing arrays
      none).1

abbrev with_pool : Abt
with_pool = (add_pool_from_json empty_json numbered false true true true makers with_xstream none).1

with_xstream-Fresh : Fresh makers with_xstream.pools
unfolding find_pool_by_handle find_first add_xstream_from_json xstream_validate_json
    find_xstream_by_name name_or_unused generate_unused_name sched_init_from_json counted modify_at
with_xstream-Fresh r p e =
    subst (λ q. find_pool_by_handle with_xstream.pools q ≡ none) (some-injective _ _ e) refl

usage_is_kept_example : Inv growing (remove_xstream growing with_pool 0).1
usage_is_kept_example =
    usage_is_kept growing empty_json numbered false plain arrays
      (remove_xstream growing with_pool 0).1 growing-Inv
      (next
        (next (next here (add_xstream true true growing_makers none growing-Roomy growing-Starts))
          (add_pool true true makers none with_xstream-Fresh))
        (xstream_removed 0))

run_pool_stays_example : remove_pool empty_size arrays 0 ≡ (permission, arrays)
run_pool_stays_example =
    run_pool_stays world empty_size arrays 0 0 pool_seven stream_five arrays-Inv refl refl
      (omega arith) (omega arith)

generate_terminates_example :
    (s : String) × (generate_unused_name numbered 3 ("x" ∷ "xx" ∷ []) 1 ≡ some s)
    × (taken ("x" ∷ "xx" ∷ []) s ≡ false)
generate_terminates_example = generate_terminates numbered distinct ("x" ∷ "xx" ∷ []) 1

-- Stream 6 as it is made, with a pool that is not registered behind one that is.
abbrev stream_six : XstreamEntry
stream_six = record stream_five { name = "six"; xstream = 6 }

room : Fits arrays.pools (7 ∷ 9 ∷ [])
room h = ground arith

counted-Ends_example :
    Ends world stream_six false arrays.pools []
      (some (some 7 ∷ some 9 ∷ []))
      (counted world stream_six false arrays.pools [] (some (some 7 ∷ some 9 ∷ [])))
counted-Ends_example =
    counted-Ends world stream_six false arrays.pools [] (some (some 7 ∷ some 9 ∷ [])) (omega arith)
      refl one_pool room

refused_external_lowers_example :
    (after : Abt) × (add_external_xstream numbered true world arrays (some "six") 6
      ≡ some (false, after))
    × ((h : ℕ)
        → held h after.pools + times h (reached arrays.pools (some 7 ∷ some 9 ∷ []))
          ≡ held h arrays.pools)
unfolding reached find_xstream_by_name find_first find_xstream_by_handle find_pool_by_handle
refused_external_lowers_example =
    refused_external_lowers world numbered arrays "six" 6 4 (some 7 ∷ some 9 ∷ []) (omega arith)
      refl refl refl refl one_pool (λ h. ground arith) few

-- The pool without its stream.
abbrev idle : Abt
idle = record arrays { pools = record pool_seven { num_xstreams = 0 } ∷ []; xstreams = [] }

abbrev after_idle : Abt
after_idle = record idle { pools = []; freed = 7 ∷ [] }

removed_pool_was_idle_example :
    (p : PoolEntry) × (get_elem? idle.pools 0 ≡ some p)
    × (p.refcount ≡ 0)
    × (p.num_xstreams ≡ 0)
    × (empty_size p.pool ≡ some 0)
    × ((h : ℕ)
        → times h after_idle.freed
          ≡ times h idle.freed
            + one_if (
                (p.margo_free_flag && not p.used_by_primary && not (p.pool == null))
                && (p.pool == h)))
    × ((test : PoolEntry → Bool)
        → number test after_idle.pools + one_if (test p) ≡ number test idle.pools)
    × (after_idle.xstreams ≡ idle.xstreams)
    × (after_idle.joined ≡ idle.joined)
unfolding remove_pool
removed_pool_was_idle_example = removed_pool_was_idle empty_size idle after_idle 0 refl

destroy_gives_back_example :
    (times 7 (abt_destroy world arrays).freed ≡ times 7 [] + number (gives_pool 7) arrays.pools)
    × (times 7 (abt_destroy world arrays).joined
        ≡ times 7 [] + number (gives_xstream 7) arrays.xstreams)
destroy_gives_back_example = destroy_gives_back world arrays 7

-- A scheduler, 0, whose pools, 1, are named by an index, 2, and by a text, 3.
abbrev sched_json : Json
sched_json = record {
  Value = ℕ;
  is_object = λ v. v == 0;
  is_string = λ v. v == 3;
  is_int = λ v. v == 2;
  is_array = λ v. v == 1;
  field = λ v key. if same_text key "pools" then some 1 else none;
  text = λ v. "seven";
  integer = λ v. some 0;
  elements = λ v. if v == 1 then 2 ∷ 3 ∷ [] else [];
}

sched_passes :
    sched_validate_json sched_json true (known sched_json arrays.pools) 1 [] (some 0) ≡ true
unfolding sched_validate_json find_pool_by_name find_first
sched_passes = refl

checked_references_found_example :
    (hs : List ℕ) × (all_referred sched_json arrays.pools
        (elements_of sched_json (get sched_json (some 0) "pools"))
      ≡ some hs)
    × (length hs ≡ length (elements_of sched_json (get sched_json (some 0) "pools")))
checked_references_found_example =
    checked_references_found sched_json true arrays.pools (some 0) sched_passes

-- A pool, an object in which nothing stands.
pool_passes : pool_validate_json empty_json false (some true) ≡ true
unfolding pool_validate_json
pool_passes = refl
