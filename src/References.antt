-- ===== src/References.antt =====
-- References to data sources in the configuration of a job (sahara/service/edp/job_utils.py).
pub mod Growth
pub mod Resolved
pub mod Credentials
pub mod Search
mod Tests
use sahara.Base.{
  ℕ, suc, ◌+◌, Bool, true, false, not, ◌&&◌, ◌||◌, Option, none, some, String, List, [], ◌∷◌, ◌++◌,
  if◌then◌else◌, str_eq, keep, is_empty, is_some,
}
use sahara.Base.Dict.{Dict, lookup, contains, insert}

-- `credentials` is none where the object has no such attribute.
pub record DataSource : Type 0 where
  pub id : String
  pub name : String
  pub type : String
  pub url : String
  pub credentials : Option (Dict String)

-- The parts of job_configs that are read; `proxy_configs` is whether it has some.
pub record JobConfigs : Type 0 where
  pub configs : Dict String
  pub params : Dict String
  pub args : List String
  pub proxy_configs : Bool

-- What the calls ask of Python's texts and of uuid, the table of the data sources, and the two URLs
-- of a source: `_construct_data_source_url`, which draws random letters and so depends on how many
-- URLs were constructed before, and `_runtime_url`.
pub record Sources : Type 0 where
  -- the rest of a text that starts with datasource://
  pub after_prefix : String → Option String
  pub is_uuid_like : String → Bool
  pub table : List DataSource
  pub construct_url : ℕ → String → String
  pub runtime_url : String → String

-- The URLs of the data sources by id, those seen, and how many URLs were constructed.
pub record State : Type 0 where
  pub urls : Dict (String × String)
  pub seen : Dict DataSource
  pub constructed : ℕ

-- `truth in (True, 'True')`, where a configuration is a text.
abbrev pub is_true : Option String → Bool
is_true none = false
is_true (some truth) = str_eq truth "True"

abbrev pub may_contain_data_source_refs : JobConfigs → Bool × Bool
may_contain_data_source_refs job_configs = (
  is_true (lookup "edp.substitute_data_source_for_name" job_configs.configs),
  is_true (lookup "edp.substitute_data_source_for_uuid" job_configs.configs),
)

module _ (s : Sources) where
  -- `data_source_get_all(name=value)`
  abbrev pub by_its_name : String → List DataSource
  by_its_name value = keep (λ ds. str_eq ds.name value) s.table

  abbrev pub by_its_id : String → List DataSource
  by_its_id value = keep (λ ds. str_eq ds.id value) s.table

  -- `if len(ds) == 1`
  abbrev pub the_one : List DataSource → Option DataSource
  the_one [] = none
  the_one (ds ∷ []) = some ds
  the_one (ds ∷ other ∷ more) = none

  -- The value to keep and the source that is meant, if one is.
  abbrev pub by_uuid_meant : Bool → String → String × Option DataSource
  by_uuid_meant by_uuid value =
      (value, if by_uuid && s.is_uuid_like value then the_one (by_its_id value) else none)

  abbrev pub meant_after : Bool → String → Option String → String × Option DataSource
  meant_after by_uuid value none = by_uuid_meant by_uuid value
  meant_after by_uuid value (some name) = (name, the_one (by_its_name name))

  abbrev pub meant : Bool × Bool → String → String × Option DataSource
  meant (by_name, by_uuid) value =
      if by_name
      then meant_after by_uuid value (s.after_prefix value)
      else by_uuid_meant by_uuid value

  abbrev pub make_urls : ℕ → DataSource → String × String
  make_urls n ds = (s.construct_url n ds.url, s.runtime_url (s.construct_url n ds.url))

  -- `if ds.id not in data_source_urls`: a source gets its URLs once.
  unfoldable pub construct : DataSource → State → State
  construct ds st = if contains ds.id st.urls then st else record st {
    urls = insert ds.id (make_urls st.constructed ds) st.urls;
    constructed = suc st.constructed;
  }

  -- `data_source_urls[ds.id]` after that: the URLs that were there, or those just constructed.
  abbrev pub urls_of : DataSource → State → String × String
  urls_of ds st = elim (lookup ds.id st.urls) [
    | none ↦ make_urls st.constructed ds
    | some urls ↦ urls
  ]

  abbrev pub resolve_to : String × Option DataSource → State → String × State
  resolve_to (value, none) st = (value, st)
  resolve_to (value, some ds) st =
      ((urls_of ds st).1, construct ds (record st { seen = insert ds.id ds st.seen }))

  unfoldable pub resolve : Bool × Bool → String → State → String × State
  unfolding construct
  resolve by value st = resolve_to (meant by value) st

  abbrev pub resolve_args : Bool × Bool → List String → State → List String × State
  resolve_args by [] st = ([], st)
  resolve_args by (a ∷ args) st = (
    (resolve by a st).0 ∷ (resolve_args by args (resolve by a st).1).0,
    (resolve_args by args (resolve by a st).1).1,
  )

  abbrev pub resolve_dict : Bool × Bool → Dict String → State → Dict String × State
  resolve_dict by [] st = ([], st)
  resolve_dict by ((k, v) ∷ d) st = (
    (k, (resolve by v st).0) ∷ (resolve_dict by d (resolve by v st).1).0,
    (resolve_dict by d (resolve by v st).1).1,
  )

-- The credentials of the first source in Swift that has the attribute, be they empty.
abbrev pub first_credentials : Dict DataSource → Dict String
first_credentials [] = []
first_credentials ((id, src) ∷ ds_list) = elim src.credentials [
  | none ↦ first_credentials ds_list
  | some credentials ↦ if str_eq src.type "swift" then credentials else first_credentials ds_list
]

-- Does not overwrite.
abbrev pub add_config : String → Option String → Dict String → Dict String
add_config key none configs = configs
add_config key (some value) configs =
    if contains key configs then configs else insert key value configs

unfoldable pub add_credentials_for_data_sources : Dict DataSource → Dict String → Dict String
add_credentials_for_data_sources ds_list configs =
    add_config "fs.swift.service.sahara.password" (lookup "password" (first_credentials ds_list)) (
      add_config "fs.swift.service.sahara.username" (lookup "user" (first_credentials ds_list))
        configs)

module _ (s : Sources) where
  -- The configuration with the values of all three parts looked up in turn.
  abbrev pub look_up_all : Bool × Bool → JobConfigs → State → JobConfigs × State
  look_up_all by job_configs st =
      let (configs, st₁) = resolve_dict s by job_configs.configs st in
      let (params, st₂) = resolve_dict s by job_configs.params st₁ in
      let (args, st₃) = resolve_args s by job_configs.args st₂ in
      (record job_configs { configs = configs; params = params; args = args }, st₃)

  -- The sources that were seen, the new configuration and the URLs.
  abbrev pub with_credentials :
      JobConfigs → JobConfigs × State → Dict DataSource × (JobConfigs × State)
  with_credentials job_configs (new_configs, st) =
      if is_empty st.seen then ([], (job_configs, st)) else (
        st.seen,
        (
          (if job_configs.proxy_configs then new_configs else record new_configs {
            configs = add_credentials_for_data_sources st.seen new_configs.configs;
          }),
          st,
        ),
      )

  unfoldable pub resolve_data_source_references :
      JobConfigs → Dict (String × String) → Dict DataSource × (JobConfigs × State)
  unfolding add_credentials_for_data_sources
  resolve_data_source_references job_configs data_source_urls =
      let by = may_contain_data_source_refs job_configs in
      let st : State = record { urls = data_source_urls; seen = []; constructed = 0 } in
      if not (by.0 || by.1)
      then ([], (job_configs, st))
      else with_credentials job_configs (look_up_all by job_configs st)
