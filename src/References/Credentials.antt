-- ===== src/References/Credentials.antt =====
-- The credentials that a configuration gets from the data sources that it refers to.
use sahara.Base.{
  ◌≡◌, ◌≢◌, ◌⊎◌, ◌++◌, All, Bool, Option, none, some, String, [], ◌∷◌, if◌then◌else◌, str_eq,
}
use sahara.Base.Dict.{Dict, lookup, insert}
use sahara.References.{DataSource}

-- What is configured, or the default for the key.
abbrev pub configured : Option String → Option String → Option String
configured none default = default
configured (some value) default = some value

-- A source that is not in Swift, or has no credentials.
abbrev pub Lacks : String × DataSource → Type 0
Lacks (id, src) = (src.type ≢ "swift") ⊎ (src.credentials ≡ none)

-- The credentials of the first source that is in Swift and has some, and none without one.
abbrev pub IsFirst : Dict DataSource → Dict String → Type 0
IsFirst ds_list credentials =
    ((before : Dict DataSource) × (id : String) × (src : DataSource) × (after : Dict DataSource)
      × (ds_list ≡ before ++ ((id, src) ∷ after))
      × All Lacks before
      × (src.type ≡ "swift")
      × (src.credentials ≡ some credentials))
    ⊎ (All Lacks ds_list × (credentials ≡ []))

abbrev added : String → String → Dict String → Bool → Dict String
added key value configs there = if there then configs else insert key value configs

-- What is configured, with the two keys of Swift filled in from these credentials.
abbrev pub filled : Dict String → String → Option String → Option String
filled credentials k old =
    configured
      (configured old
        (if str_eq "fs.swift.service.sahara.username" k then lookup "user" credentials else none))
      (if str_eq "fs.swift.service.sahara.password" k then lookup "password" credentials else none)
