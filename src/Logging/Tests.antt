-- ===== src/Logging/Tests.antt =====
-- src/margo-logging.c: log levels at concrete inputs.
use mochi_margo.Base.{none}
use mochi_margo.Logging.Defs.{unset, Global}

abbrev fresh : Global
fresh = record {
  level_env = none;
  level = unset;
  logger = record {
    uargs = 9;
    trace = 11;
    debug = 12;
    info = 13;
    warning = 14;
    error = 15;
    critical = 0;
  };
}
