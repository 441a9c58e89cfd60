-- ===== src/EfirstPool/UnitCalls.antt =====
-- src/margo-efirst-pool.c: what Argobots asks of a unit. The thread and the task of a unit share
-- one field.
use mochi_margo.Base.{ℕ, Bool, if◌then◌else◌}
use mochi_margo.EfirstPool.Queue.{WorkUnit}

-- `ABT_unit_type`
pub data UnitType : Type 0 where
  type_thread type_task : UnitType

-- `pool_unit_get_type`, `pool_unit_get_thread`, `pool_unit_get_task`, `pool_unit_is_in_pool`
unfoldable pub unit_get_type : WorkUnit → UnitType
unit_get_type u = if u.is_thread then type_thread else type_task

abbrev pub unit_get_thread : WorkUnit → ℕ
unit_get_thread u = u.body

abbrev pub unit_get_task : WorkUnit → ℕ
unit_get_task u = u.body

abbrev pub unit_is_in_pool : WorkUnit → Bool
unit_is_in_pool u = u.in_pool
