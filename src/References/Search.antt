-- ===== src/References/Search.antt =====
-- The search for references before a job is launched, and the references that are resolved when it
-- is.
use sahara.Base.{
  ◌≡◌, ◌⊎◌, true, Option, none, some, String, List, [], ◌∷◌, ◌++◌, if◌then◌else◌, mem,
}
use sahara.Base.Dict.{Dict}
use sahara.References.{DataSource, JobConfigs, Sources}

-- `six.itervalues(d)`
abbrev pub values : Dict String → List String
values [] = []
values ((k, v) ∷ d) = v ∷ values d

-- The values in the order of args, configs and params.
abbrev pub all_values : JobConfigs → List String
all_values job_configs =
    job_configs.args ++ (values job_configs.configs ++ values job_configs.params)

abbrev pub set_of : List String → List String
set_of [] = []
set_of (x ∷ xs) = let rest = set_of xs in if mem x xs then rest else x ∷ rest

-- `[prune(val) for val in values if func(val)]`, where the function prunes what it accepts.
abbrev pub pruned : (String → Option String) → List String → List String
pruned func [] = []
pruned func (v ∷ vs) =
    let rest = pruned func vs in elim (func v) [ none ↦ rest | some w ↦ w ∷ rest ]

unfoldable pub data_source_ref_search : JobConfigs → (String → Option String) → List String
data_source_ref_search job_configs func = set_of (pruned func (all_values job_configs))

module _ (s : Sources) where
  abbrev pub find_possible_data_source_refs_by_name : JobConfigs → List String
  find_possible_data_source_refs_by_name job_configs =
      data_source_ref_search job_configs s.after_prefix

  abbrev pub uuid_like : String → Option String
  uuid_like value = if s.is_uuid_like value then some value else none

  abbrev pub find_possible_data_source_refs_by_uuid : JobConfigs → List String
  find_possible_data_source_refs_by_uuid job_configs = data_source_ref_search job_configs uuid_like

module _ (s : Sources) (job_configs : JobConfigs) (ds : DataSource) where
  abbrev pub Found : Type 0
  Found =
      (mem ds.name (find_possible_data_source_refs_by_name s job_configs) ≡ true)
      ⊎ (mem ds.id (find_possible_data_source_refs_by_uuid s job_configs) ≡ true)
