-- ===== src/Lifecycle/Tests.antt =====
-- src/margo-core.c: the theorems at concrete instances.
use mochi_margo.Mercury.{success}
use mochi_margo.Base.{◌≡◌, refl, true, false, some}
use mochi_margo.Lifecycle.Defs.{Instance, instance_release}
use mochi_margo.Lifecycle.Laws.{leave_all, release_then_leave}

-- An instance as it is made.
abbrev fresh : Instance
fresh = record { refcount = 1; finalize_refcount = 0; finalize_flag = false; cleanups = 0 }

-- A thread waits, the instance is torn down, and the thread leaves.
abbrev over : Instance
over = record { refcount = 0; finalize_refcount = 0; finalize_flag = true; cleanups = 1 }

-- Torn down, with one reference and one thread that waits.
abbrev held : Instance
held = record { refcount = 1; finalize_refcount = 1; finalize_flag = true; cleanups = 0 }

release_then_leave_example :
    (t : Instance) × (instance_release held ≡ (success, false, t))
    × (t.finalize_refcount ≡ 1)
    × (t.cleanups ≡ 1)
    × ((u : Instance) × (leave_all 1 t ≡ some u) × (u.cleanups ≡ 2))
release_then_leave_example = release_then_leave held 0 refl refl refl
