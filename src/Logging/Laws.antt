-- ===== src/Logging/Laws.antt =====
-- src/margo-logging.c: how the level of the process is found, and which messages pass it.
use Prim.Native.String.{String}
use mathlib.Core.Option.{some-injective}
use mochi_margo.Base.{
  ℕ, zero, suc, ◌≤◌, ◌<◌, ◌≡◌, ◌⊎◌, inl, inr, refl, ap, ◌∙◌, sym, true, ltb, ◌==◌, if◌then◌else◌,
  Option, none, some, arith,
}
use mochi_margo.Logging.Defs.{
  unset, log_warning, log_critical, log_level_from_string, log_level_to_string, Global,
  set_global_log_level_from_env, set_global_log_level, called, log_message,
}

-- A level from trace to critical is read back from its name.
pub level_round_trip :
    (level : ℕ)
    → 0 < level
    → level ≤ log_critical
    → log_level_from_string (some (log_level_to_string level)) ≡ level
unfolding log_level_from_string log_level_to_string
level_round_trip zero l h = absurd (omega (arith, l))
level_round_trip (suc zero) l h = refl
level_round_trip (suc (suc zero)) l h = refl
level_round_trip (suc (suc (suc zero))) l h = refl
level_round_trip (suc (suc (suc (suc zero)))) l h = refl
level_round_trip (suc (suc (suc (suc (suc zero))))) l h = refl
level_round_trip (suc (suc (suc (suc (suc (suc zero)))))) l h = refl
level_round_trip (suc (suc (suc (suc (suc (suc (suc n))))))) l h = absurd (omega (arith, h))

-- Once the level was looked up, a later look-up finds it whatever the environment has then.
pub level_is_read_once :
    (first later : Option String) (g : Global)
    → set_global_log_level_from_env later (set_global_log_level_from_env first g)
      ≡ set_global_log_level_from_env first g
unfolding set_global_log_level_from_env
level_is_read_once first later g = elim (text_cases g.level_env) [
  | inl e ↦ rw e refl
  | inr (t, e) ↦ rw e refl
]
  where
    text_cases : (o : Option String) → (o ≡ none) ⊎ ((t : String) × (o ≡ some t))
    text_cases none = inl refl
    text_cases (some t) = inr (t, refl)

-- A formatted message without an instance, in a process that chose no level and whose environment holds
-- the text: it reaches the global logger from the level of that text on, or from warnings on where
-- the text is missing or no level.
pub environment_sets_level :
    (getenv : Option String) (g : Global) (level : ℕ)
    → g.level_env ≡ none
    → g.level ≡ unset
    → (log_message getenv g none level true).1 ≡ (
        if ltb level (
          if log_level_from_string getenv == unset
          then log_warning
          else log_level_from_string getenv)
        then none
        else called g.logger level)
unfolding log_message set_global_log_level_from_env
environment_sets_level getenv g level e u = rw (e, u) (ground arith)

set_global_run :
    (g : Global) (chosen : ℕ)
    → chosen ≤ log_critical
    → set_global_log_level g chosen
      ≡ some (record g { level = chosen; level_env = some (log_level_to_string chosen) })
unfolding set_global_log_level
set_global_run g chosen h = ground (arith, h)

set_global_bound :
    (g t : Global) (chosen : ℕ) → set_global_log_level g chosen ≡ some t → chosen ≤ log_critical
unfolding set_global_log_level
set_global_bound g t chosen e = ground (arith, e)

chosen_message :
    (getenv : Option String) (g : Global) (chosen level : ℕ) (text : String)
    → (log_message getenv (record g { level = chosen; level_env = some text }) none level true).1
      ≡ (if ltb level chosen then none else called g.logger level)
unfolding log_message set_global_log_level_from_env
chosen_message getenv g chosen level text = ground arith

-- A level that margo_set_global_log_level accepts is the one from which messages without an
-- instance reach the global logger, whatever the environment holds.
pub chosen_level_holds :
    (getenv : Option String) (g t : Global) (chosen level : ℕ)
    → set_global_log_level g chosen ≡ some t
    → (chosen ≤ log_critical)
      × ((log_message getenv t none level true).1
          ≡ (if ltb level chosen then none else called g.logger level))
chosen_level_holds getenv g t chosen level e =
    let bound = set_global_bound g t chosen e in
    let same = some-injective _ _ (sym (set_global_run g chosen bound) ∙ e) in
    (
      bound,
      ap (λ k. (log_message getenv k none level true).1) (sym same)
          ∙ chosen_message getenv g chosen level (log_level_to_string chosen),
    )
