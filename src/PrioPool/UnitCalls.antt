-- ===== src/PrioPool/UnitCalls.antt =====
-- src/margo-prio-pool.c: what Argobots asks of a unit.
use mochi_margo.Base.{ℕ, ◌≡◌, ◌≢◌, Bool, false, not, ◌==◌, if◌then◌else◌, null, arith}
use mochi_margo.PrioPool.Defs.{Units, Pool, unit_create}

-- `ABT_unit_type`
pub data UnitType : Type 0 where
  type_thread type_task : UnitType

-- `pool_unit_get_type`, `pool_unit_get_thread`, `pool_unit_get_task`, `pool_unit_is_in_pool`
unfoldable pub unit_get_type : Units → ℕ → UnitType
unit_get_type m p = if not (m.thread p == null) then type_thread else type_task

abbrev pub unit_get_thread : Units → ℕ → ℕ
unit_get_thread m p = m.thread p

abbrev pub unit_get_task : Units → ℕ → ℕ
unit_get_task m p = m.task p

abbrev pub unit_is_in_pool : Units → ℕ → Bool
unit_is_in_pool m p = m.in_pool p

-- `pool_get_size`
abbrev pub pool_get_size : Pool → ℕ
pool_get_size s = s.num

-- A unit that is created from a thread, and one that is created from a task, have that type, give
-- back what they were created from, and are in no pool.
pub created_unit :
    (m : Units) (p body : ℕ)
    → body ≢ null
    → ((unit_get_type (unit_create m p body null) p ≡ type_thread)
        × (unit_get_thread (unit_create m p body null) p ≡ body)
        × (unit_is_in_pool (unit_create m p body null) p ≡ false))
      × ((unit_get_type (unit_create m p null body) p ≡ type_task)
          × (unit_get_task (unit_create m p null body) p ≡ body)
          × (unit_is_in_pool (unit_create m p null body) p ≡ false))
unfolding unit_get_type unit_create
created_unit m p body n =
    ((ground (arith, n), ground arith, ground arith), (ground arith, ground arith, ground arith))
