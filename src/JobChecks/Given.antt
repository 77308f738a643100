-- ===== src/JobChecks/Given.antt =====
-- What the checks of an execution's arguments establish.
use sahara.Base.{◌≡◌, ◌⊎◌, some, String, List}
use sahara.Base.Dict.{Dict, lookup}
use sahara.JobChecks.{Argument, Texts}
use sahara.JobChecks.Values.{IsLast, IsOfType, Agrees}

module _ (t : Texts) (interface : List Argument) (job_configs : Dict (Dict String)) where
  -- The value is of the type of the last argument of this name, and the configs agree with it or
  -- the argument is positional.
  abbrev pub Fits : String × String → Type 0
  Fits (name, value) =
      (arg : Argument) × IsLast name interface arg
      × IsOfType t arg.value_type value
      × ((arg.mapping_type ≡ "args") ⊎ Agrees job_configs arg value)

  -- A value is given for it.
  abbrev pub HasValue : Dict String → Argument → Type 0
  HasValue given arg = (value : String) × (lookup arg.name given ≡ some value)
