-- ===== src/Process/Tests.antt =====
-- src/margo-init.c: the theorems at concrete processes.
use mochi_margo.Base.{◌≤◌, ◌≡◌, refl, true, false, arith}
use mochi_margo.Process.Defs.{Process, complete, after_argobots, init_ext}
use mochi_margo.Process.Laws.{started, failed, here, next, Reach, argobots_outlives_instances}

abbrev fresh_process : Process
fresh_process = record {
  num_instances = 0;
  abt_init = false;
  prof_init = false;
  prof_started = false;
  running = false;
}

abbrev one_started : Process
one_started = (init_ext false false complete fresh_process).1

abbrev one_failed : Process
one_failed = (init_ext false true after_argobots one_started).1

abbrev start_and_fail : Reach fresh_process one_failed 1
start_and_fail = next (next here (started false (omega arith))) (failed true (omega arith))

argobots_outlives_instances_example :
    (one_failed.num_instances ≡ 1)
    × (1 ≤ 1 → one_failed.running ≡ true)
    × (one_failed.abt_init ≡ true → 1 ≤ 1)
argobots_outlives_instances_example =
    argobots_outlives_instances fresh_process one_failed 1 refl refl start_and_fail

abbrev one_running : Process
one_running = record {
  num_instances = 1;
  abt_init = true;
  prof_init = false;
  prof_started = false;
  running = true;
}

-- Two initializations that fail, under two instances.
abbrev two_running : Process
two_running = record one_running { num_instances = 2 }
