-- ===== src/Logging/Defs.antt =====
-- src/margo-logging.c: log levels, the global logger and the loggers of instances. The level -1 of
-- `margo_log_level`, whose values are not negative, is the greatest word of 32 bits. A function
-- of a logger is known by its address, and a message is an event: the function and its argument.
use Prim.Native.Nat.{lt, eq, gt}
use Prim.Native.String.{String, compare}
use mochi_margo.Base.{
  ℕ, ◌-◌, ◌^◌, Bool, true, false, not, ltb, ◌==◌, if◌then◌else◌, null, Option, none, some,
}

abbrev pub log_trace : ℕ
log_trace = 1

abbrev pub log_debug : ℕ
log_debug = 2

abbrev pub log_info : ℕ
log_info = 3

abbrev pub log_warning : ℕ
log_warning = 4

abbrev pub log_error : ℕ
log_error = 5

abbrev pub log_critical : ℕ
log_critical = 6

abbrev pub unset : ℕ
unset = 2 ^ 32 - 1

-- strcmp(s, t) == 0
abbrev pub same_text : String → String → Bool
same_text s t = elim (compare s t) [ lt ↦ false | eq ↦ true | gt ↦ false ]

-- `log_level_from_string`, where none is the null pointer.
unfoldable pub log_level_from_string : Option String → ℕ
log_level_from_string none = unset
log_level_from_string (some level) =
    if same_text level "trace"
    then log_trace
    else if same_text level "debug"
    then log_debug
    else if same_text level "info"
    then log_info
    else if same_text level "warning"
    then log_warning
    else if same_text level "error"
    then log_error
    else if same_text level "critical"
    then log_critical
    else unset

-- `log_level_to_string`
unfoldable pub log_level_to_string : ℕ → String
log_level_to_string level =
    if level == log_trace
    then "trace"
    else if level == log_debug
    then "debug"
    else if level == log_info
    then "info"
    else if level == log_warning
    then "warning"
    else if level == log_error
    then "error"
    else if level == log_critical
    then "critical"
    else ""

-- `struct margo_logger`
pub record Logger : Type 0 where
  pub uargs : ℕ
  pub trace : ℕ
  pub debug : ℕ
  pub info : ℕ
  pub warning : ℕ
  pub error : ℕ
  pub critical : ℕ

-- The six functions of this file that write to stderr, at the addresses that the linker gives
-- them, as the value of `global_logger` before any call.
pub record Builtin : Type 0 where
  pub default_logger : Logger

-- `global_log_level_env`, `global_log_level` and `global_logger`.
pub record Global : Type 0 where
  pub level_env : Option String
  pub level : ℕ
  pub logger : Logger

-- What an instance keeps for logging.
pub record Instance : Type 0 where
  pub log_level : ℕ
  pub logger : Logger

-- `set_global_log_level_from_env`, where `getenv` is the value of MARGO_LOG_LEVEL.
unfoldable pub set_global_log_level_from_env : (getenv : Option String) → Global → Global
set_global_log_level_from_env getenv g =
    let wanted = log_level_from_string getenv in
    let level =
      if g.level == unset then (if wanted == unset then log_warning else wanted) else g.level in
    let chosen = record g { level = level; level_env = some (log_level_to_string level) } in
    elim g.level_env [ none ↦ chosen | some text ↦ g ]

-- The function of a logger for a level.
abbrev pub function_of : Logger → ℕ → ℕ
function_of l level =
    if level == log_trace
    then l.trace
    else if level == log_debug
    then l.debug
    else if level == log_info
    then l.info
    else if level == log_warning
    then l.warning
    else if level == log_error
    then l.error
    else l.critical

-- The call of a logger's function, if it has one.
abbrev pub called : Logger → ℕ → Option (ℕ × ℕ)
called l level = if function_of l level == null then none else some (function_of l level, l.uargs)

-- The functions that DEFINE_LOG_FN defines, one for each level, on an instance or on none;
-- `formatted` is whether vsnprintf gave a size.
unfoldable pub log_message :
    (getenv : Option String)
    → Global
    → Option Instance
    → (function_level : ℕ) → (formatted : Bool) → Global × Option (ℕ × ℕ)
log_message getenv g mid function_level formatted =
    let t = set_global_log_level_from_env getenv g in
    let level : ℕ = elim mid [ none ↦ t.level | some i ↦ i.log_level ] in
    let logger : Logger = elim mid [ none ↦ t.logger | some i ↦ i.logger ] in
    if ltb function_level level
    then (t, none)
    else if not formatted
    then (t, none)
    else (t, called logger function_level)

-- `margo_set_logger`, where none is the null pointer.
unfoldable pub set_logger :
    Builtin → (getenv : Option String) → Global → Option Logger → Global × Instance
set_logger b getenv g logger =
    let t = set_global_log_level_from_env getenv g in
    (
      t,
      record {
        log_level = t.level;
        logger = elim logger [ none ↦ record (b.default_logger) { uargs = null } | some l ↦ l ];
      },
    )

-- `margo_set_log_level`; none is the result -1. As `margo_log_level` has no value below zero, the
-- first half of the guard holds of none.
unfoldable pub set_log_level : Instance → (level : ℕ) → Option Instance
set_log_level i level =
    if ltb log_critical level then none else some (record i { log_level = level })

-- `margo_set_global_logger`
unfoldable pub set_global_logger : Builtin → Global → Option Logger → Global
set_global_logger b g none = record g { logger = record (b.default_logger) { uargs = null } }
set_global_logger b g (some l) = record g { logger = l }

-- `margo_set_global_log_level`
unfoldable pub set_global_log_level : Global → (level : ℕ) → Option Global
set_global_log_level g level =
    if ltb log_critical level
    then none
    else some (record g { level = level; level_env = some (log_level_to_string level) })
