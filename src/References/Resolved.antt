-- ===== src/References/Resolved.antt =====
-- Looking the values up one by one is one substitution, under the URLs that come of it.
use sahara.Base.{◌≡◌, refl, sym, ap, ◌∙◌, Bool, Option, none, some, String, List, [], ◌∷◌, map}
use sahara.Base.Dict.{Dict, lookup, insert}
use sahara.References.{
  DataSource, JobConfigs, Sources, State, meant, urls_of, resolve_to, resolve, resolve_args,
  resolve_dict, look_up_all,
}
use sahara.References.Growth.{
  Extends, Has, construct-Has, resolve_dict-Extends, resolve_args-Extends,
}

module _ (s : Sources) where
  -- The URL that is recorded for a data source.
  abbrev pub url_of : String → Dict (String × String) → String
  url_of id urls = elim (lookup id urls) [ none ↦ "" | some (url, runtime) ↦ runtime ]

  Has-url :
      (id : String) (urls : Dict (String × String)) (u : String × String)
      → Has id urls u
      → url_of id urls ≡ u.1
  Has-url id urls u h =
      ap (λ (o : Option (String × String)). elim o [ none ↦ "" | some (url, runtime) ↦ runtime ]) h

  -- The URL of a source, and any other value as it is kept.
  abbrev pub put_url : Dict (String × String) → String × Option DataSource → String
  put_url urls (value, none) = value
  put_url urls (value, some ds) = url_of ds.id urls

  abbrev pub substituted : Bool × Bool → Dict (String × String) → String → String
  substituted by urls value = put_url urls (meant s by value)

  abbrev pub substituted_dict : Bool × Bool → Dict (String × String) → Dict String → Dict String
  substituted_dict by urls [] = []
  substituted_dict by urls ((k, v) ∷ d) = (k, substituted by urls v) ∷ substituted_dict by urls d

  resolve-substituted :
      (by : Bool × Bool) (value : String) (st : State) (urls : Dict (String × String))
      → Extends (resolve s by value st).1.urls urls
      → (resolve s by value st).0 ≡ substituted by urls value
  unfolding resolve
  resolve-substituted by value st urls = go (meant s by value)
    where
      go :
          (m : String × Option DataSource)
          → Extends (resolve_to s m st).1.urls urls
          → (resolve_to s m st).0 ≡ put_url urls m
      go (v, none) more = refl
      go (v, some ds) more =
          let st₁ : State = record st { seen = insert ds.id ds st.seen } in
          let u = urls_of s ds st in
          sym (Has-url ds.id urls u (more ds.id u (construct-Has s ds st₁)))

  resolve_dict-substituted :
      (by : Bool × Bool) (d : Dict String) (st : State) (urls : Dict (String × String))
      → Extends (resolve_dict s by d st).1.urls urls
      → (resolve_dict s by d st).0 ≡ substituted_dict by urls d
  resolve_dict-substituted by [] st urls more = refl
  resolve_dict-substituted by ((k, v) ∷ d) st urls more =
      let st₁ = (resolve s by v st).1 in
      ap (λ w. (k, w) ∷ (resolve_dict s by d st₁).0)
        (resolve-substituted by v st urls
          (λ id u h. more id u (resolve_dict-Extends s by d st₁ id u h)))
      ∙ ap (λ rest. (k, substituted by urls v) ∷ rest) (resolve_dict-substituted by d st₁ urls more)

  resolve_args-substituted :
      (by : Bool × Bool) (args : List String) (st : State) (urls : Dict (String × String))
      → Extends (resolve_args s by args st).1.urls urls
      → (resolve_args s by args st).0 ≡ map (substituted by urls) args
  resolve_args-substituted by [] st urls more = refl
  resolve_args-substituted by (a ∷ args) st urls more =
      let st₁ = (resolve s by a st).1 in
      ap (λ w. w ∷ (resolve_args s by args st₁).0)
        (resolve-substituted by a st urls
          (λ id u h. more id u (resolve_args-Extends s by args st₁ id u h)))
      ∙ ap (λ rest. substituted by urls a ∷ rest) (resolve_args-substituted by args st₁ urls more)

  -- The configs, params and args come out as under one substitution, that of the final URLs: every
  -- reference to a data source becomes the same URL, which is the one recorded for it, and a source
  -- that had URLs before keeps them.
  pub look_up_all-substituted :
      (by : Bool × Bool) (job_configs : JobConfigs) (st : State)
      → ((look_up_all s by job_configs st).0.configs
          ≡ substituted_dict by (look_up_all s by job_configs st).1.urls job_configs.configs)
        × ((look_up_all s by job_configs st).0.params
            ≡ substituted_dict by (look_up_all s by job_configs st).1.urls job_configs.params)
        × ((look_up_all s by job_configs st).0.args
            ≡ map (substituted by (look_up_all s by job_configs st).1.urls) job_configs.args)
        × Extends st.urls (look_up_all s by job_configs st).1.urls
  look_up_all-substituted by job_configs st =
      let st₁ = (resolve_dict s by job_configs.configs st).1 in
      let st₂ = (resolve_dict s by job_configs.params st₁).1 in
      let st₃ = (resolve_args s by job_configs.args st₂).1 in
      let last = resolve_args-Extends s by job_configs.args st₂ in
      let middle : Extends st₁.urls st₃.urls =
        λ id u h. last id u (resolve_dict-Extends s by job_configs.params st₁ id u h) in
      (
        resolve_dict-substituted by job_configs.configs st st₃.urls middle,
        resolve_dict-substituted by job_configs.params st₁ st₃.urls last,
        resolve_args-substituted by job_configs.args st₂ st₃.urls (λ id u h. h),
        λ id u h. middle id u (resolve_dict-Extends s by job_configs.configs st id u h),
      )
