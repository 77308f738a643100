-- ===== src/References/Growth.antt =====
-- The URLs of the data sources grow as values are looked up, and what is there stays.
use mathlib.Core.Path.{subst}
use sahara.Base.{
  ◌≡◌, refl, sym, ap, ◌∙◌, inl, inr, Bool, false, Option, none, some, String, List, [], ◌∷◌,
  Bool-cases, str_eq, eq_iff, is_some, arith,
}
use sahara.Base.Dict.{Dict, lookup, contains, insert, lookup-insert}
use sahara.References.{
  DataSource, Sources, State, meant, make_urls, urls_of, construct, resolve_to, resolve,
  resolve_args, resolve_dict,
}

-- Every URL of the one is that of the other.
abbrev pub Extends : Dict (String × String) → Dict (String × String) → Type 0
Extends urls more =
    (id : String) (u : String × String) → lookup id urls ≡ some u → lookup id more ≡ some u

-- A key that is new does not disturb the others.
insert_new :
    {V : Type 0} (k j : String) (v u : V) (d : Dict V)
    → contains k d ≡ false
    → lookup j d ≡ some u
    → lookup j (insert k v d) ≡ some u
insert_new k j v u d new h = elim (Bool-cases (str_eq k j)) [
  | inl same ↦
      absurd (cc (new, ap is_some (subst (λ i. lookup i d ≡ some u) (sym ((eq_iff k j).0 same)) h)))
  | inr other ↦ lookup-insert k j v d ∙ rw other h
]

insert_self : {V : Type 0} (k : String) (v : V) (d : Dict V) → lookup k (insert k v d) ≡ some v
insert_self k v d = lookup-insert k k v d ∙ ground (arith, eq_iff k k)

abbrev pub Has : String → Dict (String × String) → (String × String) → Type 0
Has id urls u = lookup id urls ≡ some u

module _ (s : Sources) where
  pub construct-Extends : (ds : DataSource) (st : State) → Extends st.urls (construct s ds st).urls
  unfolding construct
  construct-Extends ds st id u h = elim (Bool-cases (contains ds.id st.urls)) [
    | inl there ↦ rw (there, construct) h
    | inr missing ↦
        rw (missing, construct)
          (insert_new ds.id id (make_urls s st.constructed ds) u st.urls missing h)
  ]

  pub resolve-Extends :
      (by : Bool × Bool) (value : String) (st : State)
      → Extends st.urls (resolve s by value st).1.urls
  unfolding resolve
  resolve-Extends by value st = go (meant s by value)
    where
      go : (m : String × Option DataSource) → Extends st.urls (resolve_to s m st).1.urls
      go (v, none) id u h = h
      go (v, some ds) id u h =
          construct-Extends ds (record st { seen = insert ds.id ds st.seen }) id u h

  -- After a source was looked up it has its URLs.
  pub construct-Has :
      (ds : DataSource) (st : State) → Has ds.id (construct s ds st).urls (urls_of s ds st)
  unfolding construct
  construct-Has ds st = go (lookup ds.id st.urls) refl
    where
      go :
          (o : Option (String × String))
          → lookup ds.id st.urls ≡ o
          → Has ds.id
              (construct s ds st).urls
              (elim o [ none ↦ make_urls s st.constructed ds | some urls ↦ urls ])
      go none e = rw (e, construct) (insert_self ds.id (make_urls s st.constructed ds) st.urls)
      go (some u) e = rw (e, construct) e

  pub resolve_dict-Extends :
      (by : Bool × Bool) (d : Dict String) (st : State)
      → Extends st.urls (resolve_dict s by d st).1.urls
  resolve_dict-Extends by [] st id u h = h
  resolve_dict-Extends by ((k, v) ∷ d) st id u h =
      resolve_dict-Extends by d (resolve s by v st).1 id u (resolve-Extends by v st id u h)

  pub resolve_args-Extends :
      (by : Bool × Bool) (args : List String) (st : State)
      → Extends st.urls (resolve_args s by args st).1.urls
  resolve_args-Extends by [] st id u h = h
  resolve_args-Extends by (a ∷ args) st id u h =
      resolve_args-Extends by args (resolve s by a st).1 id u (resolve-Extends by a st id u h)
