-- ===== src/Process/Defs.antt =====
-- src/margo-abt-config.c, src/margo-init.c: the variables that the instances of a process share, and
-- how an instance that comes or goes changes them. `running` is whether Argobots is initialized.
use mochi_margo.Base.{
  ℕ, ◌+◌, ◌-◌, ◌%◌, ◌^◌, Bool, true, false, ◌&&◌, ◌||◌, not, ◌==◌, if◌then◌else◌,
}

-- src/margo-globals.c
pub record Process : Type 0 where
  pub num_instances : ℕ
  pub abt_init : Bool
  pub prof_init : Bool
  pub prof_started : Bool
  pub running : Bool

-- The end of `__margo_abt_destroy`; the counter is a word of 32 bits.
abbrev pub shut_down : Process → Process
shut_down p = record p {
  prof_started = p.prof_started && not p.prof_init;
  prof_init = false;
  running = false;
  abt_init = false;
}

unfoldable pub abt_down : Process → Process
abt_down p =
    let less = record p { num_instances = (p.num_instances + (2 ^ 32 - 1)) % 2 ^ 32 } in
    if (less.num_instances == 0) && p.abt_init then shut_down less else less

-- The start of `__margo_abt_init_from_json`, where ABT_init succeeds or is not needed.
unfoldable pub abt_up : (tool_enabled : Bool) → Process → Process
abt_up tool_enabled p = record p {
  num_instances = (p.num_instances + 1) % 2 ^ 32;
  abt_init = p.abt_init || not p.running;
  prof_init = p.prof_init || tool_enabled;
  running = true;
}

-- Where `margo_init_ext` ends: at its return for a text that is not JSON, at an error before Argobots is
-- set up, at ABT_init that fails, at an error in `__margo_abt_init_from_json` behind the count of
-- instances, at an error behind it, or at its end.
pub data Stage : Type 0 where
  not_json before_argobots abt_init_fails in_arrays after_argobots complete : Stage

-- `margo_init_ext` for an instance without a parent, with the clean-up at its label error;
-- `__margo_abt_init_from_json` cleans up after itself too. The result is whether there is an instance.
abbrev pub init_alone : (tool_enabled : Bool) → Stage → Process → Bool × Process
init_alone tool_enabled not_json p = (false, p)
init_alone tool_enabled before_argobots p = (false, abt_down p)
init_alone tool_enabled abt_init_fails p = (false, abt_down (abt_down p))
init_alone tool_enabled in_arrays p = (false, abt_down (abt_down (abt_up tool_enabled p)))
init_alone tool_enabled after_argobots p = (false, abt_down (abt_up tool_enabled p))
init_alone tool_enabled complete p = (true, abt_up tool_enabled p)

abbrev pub is_complete : Stage → Bool
is_complete complete = true
is_complete _ = false

-- `margo_init_ext`; an instance with a parent has Argobots and the arrays from its parent.
unfoldable pub init_ext : (has_parent tool_enabled : Bool) → Stage → Process → Bool × Process
unfolding abt_up abt_down
init_ext true tool_enabled stage p = (is_complete stage, p)
init_ext false tool_enabled stage p = init_alone tool_enabled stage p

-- The part of `margo_cleanup` that gives the arrays up, for an instance without a parent.
unfoldable pub cleaned_up : (has_parent : Bool) → Process → Process
unfolding abt_down
cleaned_up true p = p
cleaned_up false p = abt_down p
