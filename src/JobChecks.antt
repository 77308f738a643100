-- ===== src/JobChecks.antt =====
-- The checks of a job and of its interface (sahara/service/validations/edp/job.py and
-- job_interface.py, with the job types of sahara/utils/edp.py).
pub mod Locations
pub mod Scripts
pub mod Values
pub mod Given
mod Tests
use sahara.Base.{
  ℕ, zero, suc, ◌+◌, Bool, true, false, not, ◌&&◌, ◌||◌, Option, none, some, String, List, [], ◌∷◌,
  ◌++◌, map, Result, ok, err, Error, Check, raise_if, ◌>>=◌, ◌>>◌, if◌then◌else◌, str_eq, ◌==◌, mem,
  distinct, all, any, keep, length, is_empty, is_some, has,
}
use sahara.Base.Dict.{Dict, lookup, keys}
use sahara.Objects.{truthy}

-- JOB_TYPES_ALL
pub data JobType : Type 0 where
  hive java mapreduce mapreduce_streaming pig shell spark storm : JobType

-- JOB_TYPES_ACCEPTABLE_CONFIGS
abbrev pub acceptable_types : JobType → List String
acceptable_types hive = "configs" ∷ "params" ∷ []
acceptable_types pig = "configs" ∷ "params" ∷ "args" ∷ []
acceptable_types mapreduce = "configs" ∷ []
acceptable_types mapreduce_streaming = "configs" ∷ []
acceptable_types java = "configs" ∷ "args" ∷ []
acceptable_types shell = "configs" ∷ "params" ∷ "args" ∷ []
acceptable_types spark = "configs" ∷ "args" ∷ []
acceptable_types storm = "args" ∷ []

-- The job types that run a main script or application.
abbrev pub runs_mains : JobType → Bool
runs_mains hive = true
runs_mains pig = true
runs_mains shell = true
runs_mains spark = true
runs_mains storm = true
runs_mains _ = false

abbrev pub is_streaming : JobType → Bool
is_streaming mapreduce_streaming = true
is_streaming _ = false

-- `_check_binaries`, where `get_job_binary` is whether there is a binary of this id.
abbrev pub check_binaries : (String → Bool) → List String → Check
check_binaries get_job_binary [] = ok tt
check_binaries get_job_binary (job_binary ∷ values) = do
  raise_if (not (get_job_binary job_binary)) Error.not_found
  check_binaries get_job_binary values

-- `set(mains).intersection(set(libs))`
abbrev pub overlap : List String → List String → Bool
overlap mains libs = any (λ main. mem main libs) mains

abbrev pub check_mains : List String → List String → Check
check_mains mains libs = do
  raise_if (is_empty mains) Error.invalid_data
  raise_if (overlap mains libs) Error.invalid_data

abbrev pub check_libs : Bool → List String → List String → Check
check_libs streaming mains libs = do
  raise_if (not streaming && is_empty libs) Error.invalid_data
  raise_if (not (is_empty mains)) Error.invalid_data

unfoldable pub check_mains_libs : (String → Bool) → JobType → List String → List String → Check
check_mains_libs get_job_binary job_type mains libs = do
  if runs_mains job_type
      then check_mains mains libs
      else check_libs (is_streaming job_type) mains libs
  check_binaries get_job_binary mains
  check_binaries get_job_binary libs

-- An argument of an interface. A `default` of none is one that is missing or null.
pub record Argument : Type 0 where
  pub name : String
  pub mapping_type : String
  pub location : String
  pub value_type : Option String
  pub required : Bool
  pub default : Option String

-- What the checks ask of Python's texts and of uuid, urlparse and the database: `isnumeric` and
-- `int` of a text, and whether it looks like an id, names a data source, and has a URL scheme.
pub record Texts : Type 0 where
  pub isnumeric : String → Bool
  pub int : String → Result ℕ
  pub is_uuid_like : String → Bool
  pub data_source_exists : String → Check
  pub has_scheme : String → Bool

abbrev pub set : List ℕ → List ℕ
set [] = []
set (x ∷ xs) = if has x xs then set xs else x ∷ set xs

-- `all(i in locations for i in range(n))`
abbrev pub all_below : ℕ → List ℕ → Bool
all_below zero locations = true
all_below (suc i) locations = all_below i locations && has i locations

abbrev pub is_positional : Argument → Bool
is_positional arg = str_eq arg.mapping_type "args"

abbrev pub positional_args : List Argument → List Argument
positional_args interface = keep is_positional interface

-- No two arguments have the same mapping type and location.
abbrev pub at : Argument → Argument → Bool
at arg other = str_eq other.mapping_type arg.mapping_type && str_eq other.location arg.location

abbrev pub distinct_mappings : List Argument → Bool
distinct_mappings [] = true
distinct_mappings (arg ∷ interface) = not (any (at arg) interface) && distinct_mappings interface

module _ (t : Texts) where
  abbrev pub validate_data_source : String → Check
  validate_data_source value =
      if t.is_uuid_like value
      then t.data_source_exists value
      else raise_if (not (t.has_scheme value)) Error.invalid_data

  -- `_value_type_validators[type](value)`; the value is a text, so that any is a valid string.
  unfoldable pub validate_value : String → String → Check
  validate_value type value =
      if str_eq type "string"
      then ok tt
      else if str_eq type "number"
      then raise_if (not (t.isnumeric value)) Error.invalid_data
      else if str_eq type "data_source"
      then validate_data_source value
      else err Error.key_error

  -- `[int(arg["location"]) for arg in args]`
  abbrev pub locations_of : List Argument → Result (List ℕ)
  locations_of [] = ok []
  locations_of (arg ∷ args) = do
    location ← t.int arg.location
    rest ← locations_of args
    ok (location ∷ rest)

  abbrev pub check_locations : List ℕ → Check
  check_locations locations =
      raise_if (not (all_below (length (set locations)) (set locations))) Error.invalid_data

  abbrev pub check_default : String → Option String → Check
  check_default value_type none = ok tt
  check_default value_type (some default) = validate_value value_type default

  abbrev pub type_of : Argument → String
  type_of arg = elim arg.value_type [ none ↦ "string" | some value_type ↦ value_type ]

  -- The loop at the end, which sets missing value types.
  unfoldable pub check_values : List Argument → Result (List Argument)
  check_values [] = ok []
  check_values (arg ∷ interface) = do
    check_default (type_of arg) arg.default
    rest ← check_values interface
    ok (record arg { value_type = some (type_of arg) } ∷ rest)

  -- `_check_job_interface`
  unfoldable pub check_arguments : JobType → List Argument → Result (List Argument)
  check_arguments job_type interface = do
    raise_if (not (distinct (map (λ (arg : Argument). arg.name) interface))) Error.invalid_data
    raise_if (any (λ arg. not (mem arg.mapping_type (acceptable_types job_type))) interface)
        Error.invalid_data
    raise_if (not (all (λ arg. t.isnumeric arg.location) (positional_args interface)))
        Error.invalid_data
    locations ← locations_of (positional_args interface)
    check_locations locations
    raise_if (not (all (λ arg. arg.required || truthy arg.default) (positional_args interface)))
        Error.invalid_data
    raise_if (not (distinct_mappings interface)) Error.invalid_data
    check_values interface

  unfoldable pub check_job_interface : JobType → List Argument → Result (List Argument)
  unfolding check_arguments
  check_job_interface job_type [] = ok []
  check_job_interface job_type (arg ∷ interface) = check_arguments job_type (arg ∷ interface)

  -- `job_int[name]`: the last argument of a name.
  abbrev pub find_argument : String → List Argument → Option Argument
  find_argument name [] = none
  find_argument name (arg ∷ interface) = elim (find_argument name interface) [
    | none ↦ if str_eq arg.name name then some arg else none
    | some later ↦ some later
  ]

  -- A value may not be given in the configs too, unless it is the same.
  abbrev pub check_config : Option String → String → Check
  check_config none value = ok tt
  check_config (some config_value) value =
      raise_if (not (str_eq config_value value)) Error.invalid_data

  abbrev pub configs_at : String → Dict (Dict String) → Dict String
  configs_at mapping_type job_configs = elim (lookup mapping_type job_configs) [
    | none ↦ []
    | some typed_configs ↦ typed_configs
  ]

  abbrev pub check_given : Dict (Dict String) → Option Argument → String → Check
  check_given job_configs none value = err Error.key_error
  check_given job_configs (some arg) value = do
    validate_value (type_of arg) value
    if is_positional arg
        then ok tt
        else check_config (lookup arg.location (configs_at arg.mapping_type job_configs)) value

  unfoldable pub check_all_given : List Argument → Dict (Dict String) → Dict String → Check
  check_all_given interface job_configs [] = ok tt
  check_all_given interface job_configs ((name, value) ∷ execution_int) = do
    check_given job_configs (find_argument name interface) value
    check_all_given interface job_configs execution_int

  abbrev pub is_given : Dict String → String → Bool
  is_given execution_int name = is_some (lookup name execution_int)

  abbrev pub check_names : List Argument → Dict String → Check
  check_names interface execution_int = do
    raise_if (not (all (λ name. is_some (find_argument name interface)) (keys execution_int)))
        Error.invalid_data
    raise_if (any (λ arg. arg.required && not (is_given execution_int arg.name)) interface)
        Error.invalid_data

  abbrev pub check_interfaces : List Argument → Dict (Dict String) → Dict String → Check
  check_interfaces interface job_configs execution_int = do
    check_names interface execution_int
    check_all_given interface job_configs execution_int

  -- `interface` is the job's, `execution_int` what came with the execution.
  unfoldable pub check_execution_interface :
      List Argument → Dict (Dict String) → Option (Dict String) → Check
  unfolding check_all_given
  check_execution_interface [] job_configs none = ok tt
  check_execution_interface [] job_configs (some []) = ok tt
  check_execution_interface (arg ∷ interface) job_configs none = err Error.invalid_data
  check_execution_interface interface job_configs (some execution_int) =
      check_interfaces interface job_configs execution_int
