-- ===== src/JobChecks/Tests.antt =====
-- A shell job with two positional arguments and a parameter, and the theorems with it.
use sahara.Base.{
  ℕ, ◌≡◌, ◌<◌, ◌↔◌, ◌||◌, refl, Bool, true, false, none, some, String, List, [], ◌∷◌, ok, err,
  Error, str_eq, if◌then◌else◌, has,
}
use sahara.Base.Dict.{Dict}
use sahara.JobChecks.{
  JobType, Argument, Texts, positional_args, locations_of, validate_value, check_values,
  check_arguments, check_mains_libs, check_all_given, check_execution_interface,
}
use sahara.JobChecks.Locations.{check_arguments-locations}
use sahara.JobChecks.Scripts.{Wanted, Exist, check_mains_libs_iff}

abbrev texts : Texts
texts = record {
  isnumeric = λ s. str_eq s "0" || str_eq s "00" || str_eq s "1" || str_eq s "2";
  int = λ s.
      if str_eq s "0" || str_eq s "00"
      then ok 0
      else if str_eq s "1"
      then ok 1
      else if str_eq s "2"
      then ok 2
      else err Error.value_error;
  is_uuid_like = λ s. false;
  data_source_exists = λ s. err Error.not_found;
  has_scheme = λ s. str_eq s "swift://container/input";
}

abbrev input : Argument
input = record {
  name = "input";
  mapping_type = "args";
  location = "1";
  value_type = some "data_source";
  required = true;
  default = none;
}

abbrev verbosity : Argument
verbosity = record input {
  name = "verbosity";
  location = "0";
  value_type = some "number";
  required = false;
  default = some "1";
}

abbrev home : Argument
home = record input { name = "home"; mapping_type = "params"; location = "HOME"; value_type = none }

abbrev interface : List Argument
interface = input ∷ verbosity ∷ home ∷ []

interface_passes :
    check_arguments texts JobType.shell interface
    ≡ ok (input ∷ verbosity ∷ record home { value_type = some "string" } ∷ [])
unfolding check_arguments check_values validate_value
interface_passes = refl

gap :
    check_arguments texts JobType.shell (record input { location = "2" } ∷ verbosity ∷ [])
    ≡ err Error.invalid_data
unfolding check_arguments
gap = refl

-- Two arguments at location 0, spelled differently.
same_location :
    check_arguments texts JobType.shell
      (record verbosity { name = "level"; location = "00" } ∷ verbosity ∷ [])
    ≡ ok (record verbosity { name = "level"; location = "00" } ∷ verbosity ∷ [])
unfolding check_arguments check_values validate_value
same_location = refl

check_arguments-locations_example :
    (locations : List ℕ) × (locations_of texts (positional_args interface) ≡ ok locations)
    × ((n : ℕ) × ((i : ℕ) → (has i locations ≡ true → i < n) × (i < n → has i locations ≡ true)))
check_arguments-locations_example =
    check_arguments-locations texts JobType.shell interface interface_passes

abbrev is_script : String → Bool
is_script id = str_eq id "script"

check_mains_libs_iff_example :
    (check_mains_libs is_script JobType.shell ("script" ∷ []) [] ≡ ok tt) ↔ (
      Wanted JobType.shell ("script" ∷ []) []
      × (Exist is_script ("script" ∷ []) × Exist is_script []))
check_mains_libs_iff_example = check_mains_libs_iff is_script JobType.shell ("script" ∷ []) []

script_passes : check_mains_libs is_script JobType.shell ("script" ∷ []) [] ≡ ok tt
unfolding check_mains_libs
script_passes = refl

without_libs : check_mains_libs is_script JobType.java [] [] ≡ err Error.invalid_data
unfolding check_mains_libs
without_libs = refl

abbrev given : Dict String
given = ("input", "swift://container/input") ∷ ("home", "/home/user") ∷ []

contradicted :
    check_execution_interface texts interface (("params", ("HOME", "/root") ∷ []) ∷ []) (some given)
    ≡ err Error.invalid_data
unfolding check_execution_interface check_all_given validate_value
contradicted = refl
