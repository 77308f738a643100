-- ===== src/References/Tests.antt =====
-- A job with two references to one source and one to none, and the theorems with it.
use sahara.Base.{◌≡◌, refl, true, false, none, some, [], ◌∷◌, map, str_eq, if◌then◌else◌, ◌==◌}
use sahara.Base.Dict.{Dict, lookup}
use sahara.References.{
  DataSource, JobConfigs, Sources, State, construct, resolve, look_up_all,
  add_credentials_for_data_sources, resolve_data_source_references,
}
use sahara.References.Growth.{Extends}
use sahara.References.Search.{data_source_ref_search, find_possible_data_source_refs_by_name}
use sahara.References.Resolved.{substituted, substituted_dict, look_up_all-substituted}

abbrev clicks : DataSource
clicks = record {
  id = "42";
  name = "clicks";
  type = "swift";
  url = "swift://container/%RANDSTR(4)%";
  credentials = some (("user", "ann") ∷ []);
}

-- Every URL that is constructed is another one.
abbrev sources : Sources
sources = record {
  after_prefix = λ v.
      if str_eq v "datasource://clicks"
      then some "clicks"
      else if str_eq v "datasource://gone"
      then some "gone"
      else none;
  is_uuid_like = λ v. str_eq v "42";
  table = clicks ∷ [];
  construct_url = λ n url. if n == 0 then "swift://container/abcd" else "swift://container/efgh";
  runtime_url = λ url. url;
}

abbrev configs : JobConfigs
configs = record {
  configs =
      ("edp.substitute_data_source_for_name", "True")
      ∷ ("edp.substitute_data_source_for_uuid", "True")
      ∷ ("input", "datasource://clicks")
      ∷ [];
  params = [];
  args = "42" ∷ "datasource://gone" ∷ [];
  proxy_configs = false;
}

abbrev start : State
start = record { urls = []; seen = []; constructed = 0 }

-- Both references come to the one URL, and the one to no source loses its prefix.
args_resolved :
    (look_up_all sources (true, true) configs start).0.args ≡ "swift://container/abcd" ∷ "gone" ∷ []
unfolding resolve construct
args_resolved = refl

user_added :
    lookup "fs.swift.service.sahara.username"
      (resolve_data_source_references sources configs []).1.0.configs
    ≡ some "ann"
unfolding resolve_data_source_references resolve construct add_credentials_for_data_sources
user_added = refl

look_up_all-substituted_example :
    ((look_up_all sources (true, true) configs start).0.configs
      ≡ substituted_dict sources
          (true, true)
          (look_up_all sources (true, true) configs start).1.urls
          configs.configs)
    × ((look_up_all sources (true, true) configs start).0.params
        ≡ substituted_dict sources
            (true, true)
            (look_up_all sources (true, true) configs start).1.urls
            configs.params)
    × ((look_up_all sources (true, true) configs start).0.args
        ≡ map
            (substituted sources
              (true, true)
              (look_up_all sources (true, true) configs start).1.urls)
            configs.args)
    × Extends start.urls (look_up_all sources (true, true) configs start).1.urls
look_up_all-substituted_example = look_up_all-substituted sources (true, true) configs start

-- A source outside of Swift before it.
abbrev mixed : Dict DataSource
mixed = ("41", record clicks { id = "41"; type = "hdfs" }) ∷ ("42", clicks) ∷ []

-- The search does not look whether there are such sources.
found_by_name : find_possible_data_source_refs_by_name sources configs ≡ "gone" ∷ "clicks" ∷ []
unfolding data_source_ref_search
found_by_name = refl
