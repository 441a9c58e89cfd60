-- ===== src/AbtConfig/Json.antt =====
-- src/margo-abt-config.c and the macros of src/margo-macros.h: the checks of a configuration. The
-- values of json-c are a parameter.
use Prim.Native.String.{String}
use mochi_margo.Base.Text.{same_text, codes, one_of}
use mochi_margo.Base.{
  ℕ, ◌+◌, Bool, true, false, ◌&&◌, ◌||◌, not, leb, ltb, ◌==◌, if◌then◌else◌, Option, none, some,
  List, [], ◌∷◌, length,
}

-- What margo uses of json-c: the type of a value, a field of an object (none where there is none),
-- the text of a string, an integer (none below zero), and the elements of an array.
pub record Json : Type 1 where
  pub Value : Type 0
  pub is_object : Value → Bool
  pub is_string : Value → Bool
  pub is_int : Value → Bool
  pub is_array : Value → Bool
  pub field : Value → String → Option Value
  pub text : Value → String
  pub integer : Value → Option ℕ
  pub elements : Value → List Value

-- The loop of CONFIG_NAME_IS_VALID over the characters: letters, digits and the underscore.
abbrev pub is_digit : ℕ → Bool
is_digit c = leb 48 c && leb c 57

abbrev pub is_alnum : ℕ → Bool
is_alnum c = is_digit c || (leb 65 c && leb c 90) || (leb 97 c && leb c 122)

abbrev pub all_named : List ℕ → Bool
all_named [] = true
all_named (c ∷ cs) = (is_alnum c || (c == 95)) && all_named cs

-- CONFIG_NAME_IS_VALID
abbrev pub valid_codes : List ℕ → Bool
valid_codes [] = false
valid_codes (c ∷ cs) = not (is_digit c) && all_named (c ∷ cs)

unfoldable pub name_is_valid : String → Bool
name_is_valid name = valid_codes (codes name)

module _ (J : Json) where
  -- `json_object_object_get`, which gives null for null.
  abbrev pub get : Option J.Value → String → Option J.Value
  get none key = none
  get (some v) key = J.field v key

  -- ASSERT_CONFIG_HAS_OPTIONAL
  abbrev pub optional : (J.Value → Bool) → Option J.Value → Bool
  optional is_type none = true
  optional is_type (some v) = is_type v

  -- CONFIG_IS_IN_ENUM_STRING on a field that may be missing.
  abbrev pub in_enum : Option J.Value → List String → Bool
  in_enum none names = true
  in_enum (some v) names = one_of (J.text v) names

  abbrev pub has_text : String → Option J.Value → Bool
  has_text t none = false
  has_text t (some v) = same_text (J.text v) t

  -- The checks of a name; no entry is called "__primary__" if Argobots runs already.
  abbrev pub name_passes : (abt_runs : Bool) → Option J.Value → Bool
  name_passes abt_runs none = true
  name_passes abt_runs (some v) =
      name_is_valid (J.text v) && not (same_text (J.text v) "__primary__" && abt_runs)

  -- `__margo_abt_pool_validate_json`, where none is null.
  unfoldable pub pool_validate_json : (abt_runs : Bool) → Option J.Value → Bool
  pool_validate_json abt_runs none = true
  pool_validate_json abt_runs (some jpool) =
      let access = J.field jpool "access" in
      let kind = J.field jpool "kind" in
      let name = J.field jpool "name" in
      J.is_object jpool
      && optional J.is_string access
      && in_enum access ("private" ∷ "spsc" ∷ "mpsc" ∷ "spmc" ∷ "mpmc" ∷ [])
      && optional J.is_string kind
      && in_enum kind ("fifo" ∷ "fifo_wait" ∷ "prio_wait" ∷ "earliest_first" ∷ "external" ∷ [])
      && not (has_text "external" kind)
      && optional J.is_string name
      && name_passes abt_runs name

  -- Whether a pool of the array in the JSON has the name.
  abbrev pub named_in : String → List J.Value → Bool
  named_in name [] = false
  named_in name (p ∷ ps) = if has_text name (J.field p "name") then true else named_in name ps

  -- A reference to a pool in a scheduler: an index below the number of pools that there are, or
  -- the name of one; `known` is `__margo_abt_find_pool_by_name` on the pools of the instance.
  abbrev pub index_below : ℕ → Option ℕ → Bool
  index_below n none = false
  index_below n (some i) = ltb i n

  abbrev pub reference_passes :
      (known : String → Bool) → (num_pools : ℕ) → List J.Value → J.Value → Bool
  reference_passes known num_pools extra v =
      if J.is_int v
      then index_below (num_pools + length extra) (J.integer v)
      else if J.is_string v
      then known (J.text v) || named_in (J.text v) extra
      else false

  abbrev pub references_pass :
      (known : String → Bool) → (num_pools : ℕ) → List J.Value → List J.Value → Bool
  references_pass known num_pools extra [] = true
  references_pass known num_pools extra (v ∷ vs) =
      reference_passes known num_pools extra v && references_pass known num_pools extra vs

  abbrev pub elements_of : Option J.Value → List J.Value
  elements_of none = []
  elements_of (some v) = J.elements v

  -- `__margo_abt_sched_validate_json`; `needs_pools` is whether Argobots is older than 2.0.
  unfoldable pub sched_validate_json :
      (needs_pools : Bool)
      → (known : String → Bool) → (num_pools : ℕ) → List J.Value
      → Option J.Value
      → Bool
  sched_validate_json needs_pools known num_pools extra none = true
  sched_validate_json needs_pools known num_pools extra (some jsched) =
      let type = J.field jsched "type" in
      let pools = elements_of (J.field jsched "pools") in
      J.is_object jsched
      && optional J.is_string type
      && in_enum type ("default" ∷ "basic" ∷ "prio" ∷ "randws" ∷ "basic_wait" ∷ [])
      && optional J.is_array (J.field jsched "pools")
      && not (needs_pools && (length pools == 0))
      && references_pass known num_pools extra pools

  abbrev pub all_ints : List J.Value → Bool
  all_ints [] = true
  all_ints (v ∷ vs) = J.is_int v && all_ints vs

  -- The checks of a name of an execution stream, which for "__primary__" need pools.
  abbrev pub xstream_name_passes : (abt_runs : Bool) → Option J.Value → Option J.Value → Bool
  xstream_name_passes abt_runs sched none = true
  xstream_name_passes abt_runs sched (some v) =
      name_is_valid (J.text v)
      && (not (same_text (J.text v) "__primary__")
          || (not abt_runs && ltb 0 (length (elements_of (get sched "pools")))))

  -- `__margo_abt_xstream_validate_json`, for Argobots older than 2.0 if `needs_pools`.
  unfoldable pub xstream_validate_json :
      (needs_pools abt_runs : Bool)
      → (known : String → Bool) → (num_pools : ℕ) → List J.Value
      → Option J.Value
      → Bool
  unfolding sched_validate_json
  xstream_validate_json needs_pools abt_runs known num_pools extra none = not needs_pools
  xstream_validate_json needs_pools abt_runs known num_pools extra (some jxstream) =
      let sched = J.field jxstream "scheduler" in
      let missing : Bool = elim sched [ none ↦ true | some s ↦ false ] in
      (J.is_object jxstream || not needs_pools)
      && optional J.is_string (J.field jxstream "name")
      && optional J.is_int (J.field jxstream "cpubind")
      && optional J.is_array (J.field jxstream "affinity")
      && sched_validate_json needs_pools known num_pools extra sched
      && not (needs_pools && missing)
      && all_ints (elements_of (J.field jxstream "affinity"))
      && xstream_name_passes abt_runs sched (J.field jxstream "name")

  -- The pair of loops of CONFIG_NAMES_MUST_BE_UNIQUE, where json_object_equal compares two texts.
  abbrev pub same_names : Option J.Value → Option J.Value → Bool
  same_names none b = false
  same_names (some v) none = false
  same_names (some v) (some w) = same_text (J.text v) (J.text w)

  abbrev pub repeats : J.Value → List J.Value → Bool
  repeats v [] = false
  repeats v (w ∷ ws) =
      if same_names (J.field v "name") (J.field w "name") then true else repeats v ws

  unfoldable pub names_are_unique : List J.Value → Bool
  names_are_unique [] = true
  names_are_unique (v ∷ vs) = not (repeats v vs) && names_are_unique vs

  abbrev pub pools_pass : (abt_runs : Bool) → List J.Value → Bool
  pools_pass abt_runs [] = true
  pools_pass abt_runs (p ∷ ps) = pool_validate_json abt_runs (some p) && pools_pass abt_runs ps

  abbrev pub xstreams_pass : (needs_pools abt_runs : Bool) → List J.Value → List J.Value → Bool
  xstreams_pass needs_pools abt_runs extra [] = true
  xstreams_pass needs_pools abt_runs extra (x ∷ xs) =
      xstream_validate_json needs_pools abt_runs (λ name. false) 0 extra (some x)
      && xstreams_pass needs_pools abt_runs extra xs

  -- `__margo_abt_validate_json`; the warnings of check_abt_env_variables change nothing.
  unfoldable pub validate_json : (needs_pools abt_runs : Bool) → Option J.Value → Bool
  unfolding names_are_unique
  validate_json needs_pools abt_runs none = true
  validate_json needs_pools abt_runs (some a) =
      let pools = elements_of (J.field a "pools") in
      let xstreams = elements_of (J.field a "xstreams") in
      J.is_object a
      && optional J.is_array (J.field a "pools")
      && optional J.is_array (J.field a "xstreams")
      && optional J.is_int (J.field a "abt_mem_max_num_stacks")
      && optional J.is_int (J.field a "abt_thread_stacksize")
      && optional J.is_string (J.field a "profiling_dir")
      && pools_pass abt_runs pools
      && names_are_unique pools
      && xstreams_pass needs_pools abt_runs pools xstreams
      && names_are_unique xstreams
