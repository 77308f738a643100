-- ===== src/Validation/Known.antt =====
-- What the checks of single fields establish: what is named there is known to a service.
use mathlib.Core.Path.{subst}
use sahara.Base.{
  ◌<◌, ◌≡◌, ◌≢◌, refl, ap, sym, ◌∙◌, Bool, true, false, not, ◌⊎◌, inl, inr, Option, none, some,
  String, List, [], ◌∷◌, ◌++◌, Result, ok, err, Error, Check, raise_if, raise_if-eq-ok, >>-eq-ok,
  >>=-eq-ok, ◌>>◌, All, arith, if◌then◌else◌, mem, distinct, str_eq, eq_iff, ◌==◌, any, all,
  Bool-cases,
}
use sahara.Validation.{
  Services, PluginInfo, Fields, if_set, if_any, check_each, the_plugin, concat, occurrences,
  listed_or, check_flavor_exists, check_node_processes, check_image_registered,
  check_volume_availability_zone_exist, check_volume_type_exists, check_floatingip_pool_exists,
  check_security_groups_exist, check_availability_zone_exist,
}
use sahara.Validation.Nodes.{check_volumes}

-- Every element passed its check.
pub check_each-All :
    {A : Type 0} (check : A → Check) (xs : List A)
    → check_each check xs ≡ ok tt
    → All (λ x. check x ≡ ok tt) xs
check_each-All check [] h = tt
check_each-All check (x ∷ xs) h =
    let (first, rest) = >>-eq-ok (check x) (check_each check xs) h in
    (first, check_each-All check xs rest)

pub All-map :
    {A : Type 0} (P Q : A → Type 0) (xs : List A) → ((x : A) → P x → Q x) → All P xs → All Q xs
All-map P Q [] f h = tt
All-map P Q (x ∷ xs) f (h, hs) = (f x h, All-map P Q xs f hs)

-- A field that is given has the property; an empty text counts as not given.
abbrev pub Given : Option String → (String → Type 0) → Type 0
Given field P = (x : String) → field ≡ some x → x ≢ "" → P x

pub if_set-Given :
    (P : String → Type 0) (field : Option String) (check : String → Check)
    → ((x : String) → check x ≡ ok tt → P x)
    → if_set field check ≡ ok tt
    → Given field P
if_set-Given P none check f h x e given = absurd (cc e)
if_set-Given P (some y) check f h x e given = elim (Bool-cases (str_eq y "")) [
  | inl empty ↦ let same : y ≡ x = cc e in absurd (given (sym same ∙ (eq_iff y "").0 empty))
  | inr full ↦ let same : y ≡ x = cc e in subst P same (f y (rw full at h))
]

listed :
    (e : Error) (names : List String) (x : String)
    → listed_or e names x ≡ ok tt
    → mem x names ≡ true
listed e names x h = ground (arith, raise_if-eq-ok (not (mem x names)) e h)

mem-append :
    (x : String) (xs ys : List String)
    → mem x (xs ++ ys) ≡ true
    → (mem x xs ≡ true) ⊎ (mem x ys ≡ true)
mem-append x [] ys h = inr h
mem-append x (y ∷ xs) ys h = elim (Bool-cases (str_eq y x)) [
  | inl same ↦ inl (rw same refl)
  | inr other ↦ rw other (mem-append x xs ys (rw other at h))
]

-- One element, and no other.
abbrev pub Once : String → List String → Type 0
Once x xs =
    (before : List String) × (after : List String) × (xs ≡ before ++ (x ∷ after))
    × (mem x before ≡ false)
    × (mem x after ≡ false)

module _ (s : Services) where
  not_occurring : (x : String) (xs : List String) → occurrences s x xs ≡ 0 → mem x xs ≡ false
  not_occurring x [] h = refl
  not_occurring x (y ∷ xs) h = elim (Bool-cases (str_eq y x)) [
    | inl same ↦ absurd (omega (arith, rw same at h))
    | inr other ↦ rw other (not_occurring x xs (rw other at h))
  ]

  occurrences-Once : (x : String) (xs : List String) → occurrences s x xs ≡ 1 → Once x xs
  occurrences-Once x [] h = absurd (omega (arith, h))
  occurrences-Once x (y ∷ xs) h = elim (Bool-cases (str_eq y x)) [
    | inl same ↦ (
      [],
      xs,
      ap (λ z. z ∷ xs) ((eq_iff y x).0 same),
      refl,
      not_occurring x xs (omega (arith, rw same at h)),
    )
    | inr other ↦
        let (before, after, split, fresh, last) = occurrences-Once x xs (rw other at h) in
        (y ∷ before, after, ap (λ l. y ∷ l) split, rw other fresh, last)
  ]

  mem-concat :
      (x : String) (xss : List (List String))
      → mem x (concat s xss) ≡ true
      → any (λ xs. mem x xs) xss ≡ true
  mem-concat x [] h = h
  mem-concat x (xs ∷ xss) h = elim (mem-append x xs (concat s xss) h) [
    | inl first ↦ rw first refl
    | inr rest ↦ ground (arith, mem-concat x xss rest)
  ]

  abbrev pub PoolKnown : String → Type 0
  PoolKnown pool =
      ((s.use_neutron ≡ true) × (s.network_exists pool ≡ true))
      ⊎ ((s.use_neutron ≡ false) × (mem pool s.floating_ip_pools ≡ true))

  -- A service has the process, in the plugin's list for the version.
  abbrev pub ProcessKnown : String → String → String → Type 0
  ProcessKnown name version p =
      (plugin : PluginInfo) × (s.get_plugin name ≡ some plugin)
      × (any (λ ps. mem p ps) (plugin.node_processes version) ≡ true)

  abbrev pub VolumesValid : Fields → Type 0
  VolumesValid f =
      0 < f.volumes_per_node
      → (s.cinder_exists ≡ true)
        × (0 < f.volumes_size)
        × Given f.volumes_availability_zone (λ x. mem x s.cinder_zones ≡ true)
        × Given f.volume_type (λ x. Once x s.volume_types)

  pub check_volumes-VolumesValid : (f : Fields) → check_volumes s f ≡ ok tt → VolumesValid f
  unfolding check_volume_availability_zone_exist check_volume_type_exists
  check_volumes-VolumesValid f h some_volumes = elim (Bool-cases (f.volumes_per_node == 0)) [
    | inl e ↦ absurd (ground (arith, e, some_volumes))
    | inr e ↦
        let rest : (raise_if (not s.cinder_exists) Error.invalid_reference
              >> (if_set f.volumes_availability_zone (check_volume_availability_zone_exist s)
                  >> (if_set f.volume_type (check_volume_type_exists s)
                      >> raise_if (f.volumes_size == 0) Error.invalid_reference)))
            ≡ ok tt =
          rw e at h in
        let (h1, r1) = >>-eq-ok (raise_if (not s.cinder_exists) Error.invalid_reference) _ rest in
        let (h2, r2) =
          >>-eq-ok (if_set f.volumes_availability_zone (check_volume_availability_zone_exist s)) _
            r1 in
        let (h3, r3) = >>-eq-ok (if_set f.volume_type (check_volume_type_exists s)) _ r2 in
        (
          ground (arith, raise_if-eq-ok (not s.cinder_exists) Error.invalid_reference h1),
          ground (arith, raise_if-eq-ok (f.volumes_size == 0) Error.invalid_reference r3),
          if_set-Given _ f.volumes_availability_zone (check_volume_availability_zone_exist s)
              (listed Error.not_found s.cinder_zones) h2,
          if_set-Given _ f.volume_type (check_volume_type_exists s) known_type h3,
        )
  ]
    where
      known_type : (x : String) → check_volume_type_exists s x ≡ ok tt → Once x s.volume_types
      known_type x p = occurrences-Once x s.volume_types (
          ground
            (arith, raise_if-eq-ok (not (occurrences s x s.volume_types == 1)) Error.not_found p))

  pub known_flavor : (x : String) → check_flavor_exists s x ≡ ok tt → mem x s.flavors ≡ true
  unfolding check_flavor_exists
  known_flavor x h = listed Error.not_found s.flavors x h

  pub known_image :
      (x : String) → check_image_registered s x ≡ ok tt → mem x s.registered_images ≡ true
  unfolding check_image_registered
  known_image x h = listed Error.invalid_reference s.registered_images x h

  pub known_zone :
      (x : String) → check_availability_zone_exist s x ≡ ok tt → mem x s.nova_zones ≡ true
  unfolding check_availability_zone_exist
  known_zone x h = listed Error.not_found s.nova_zones x h

  pub known_pool : (x : String) → check_floatingip_pool_exists s x ≡ ok tt → PoolKnown x
  unfolding check_floatingip_pool_exists
  known_pool x h = go s.use_neutron refl (
      raise_if-eq-ok (not (if s.use_neutron then s.network_exists x else mem x s.floating_ip_pools))
        Error.not_found h)
    where
      go :
          (b : Bool)
          → s.use_neutron ≡ b
          → not (if b then s.network_exists x else mem x s.floating_ip_pools) ≡ false
          → PoolKnown x
      go true e q = inl (e, ground (arith, q))
      go false e q = inr (e, ground (arith, q))

  pub known_groups :
      (groups : List String)
      → if_any groups (check_security_groups_exist s groups) ≡ ok tt
      → All
          (λ x. (mem x s.security_group_ids ≡ true) ⊎ (mem x s.security_group_names ≡ true))
          groups
  unfolding check_security_groups_exist
  known_groups [] h = tt
  known_groups (g ∷ gs) h =
      let names = s.security_group_ids ++ s.security_group_names in
      All-map (λ x. listed_or Error.not_found names x ≡ ok tt)
        (λ x. (mem x s.security_group_ids ≡ true) ⊎ (mem x s.security_group_names ≡ true)) (g ∷ gs)
        (λ x p.
          mem-append x s.security_group_ids s.security_group_names
            (listed Error.not_found names x p))
        (check_each-All (listed_or Error.not_found names) (g ∷ gs) h)

  all-All : (p : String → Bool) (xs : List String) → all p xs ≡ true → All (λ x. p x ≡ true) xs
  all-All p [] h = tt
  all-All p (x ∷ xs) h = (ground (arith, h), all-All p xs (ground (arith, h)))

  pub known_processes :
      (name version : String) (processes : List String)
      → if_any processes (check_node_processes s name version processes) ≡ ok tt
      → (distinct processes ≡ true) × All (ProcessKnown name version) processes
  unfolding check_node_processes
  known_processes name version [] h = (refl, tt)
  known_processes name version (q ∷ qs) h =
      let (names, r1) = >>-eq-ok (raise_if (not (distinct (q ∷ qs))) Error.invalid_data) _ h in
      let (plugin, e, r2) = >>=-eq-ok (the_plugin s name) _ r1 in
      (
        ground (arith, raise_if-eq-ok (not (distinct (q ∷ qs))) Error.invalid_data names),
        All-map (λ x. mem x (concat s (plugin.node_processes version)) ≡ true)
            (ProcessKnown name version) (q ∷ qs)
            (λ x p. (plugin, the_plugin-some e, mem-concat x (plugin.node_processes version) p))
            (all-All (λ x. mem x (concat s (plugin.node_processes version))) (q ∷ qs)
              (ground (
                arith,
                raise_if-eq-ok
                    (not (all (λ x. mem x (concat s (plugin.node_processes version))) (q ∷ qs)))
                    Error.invalid_reference r2,
              ))),
      )
    where
      found :
          (o : Option PluginInfo) {plugin : PluginInfo}
          → ◌≡◌ {A = Result PluginInfo}
              (elim o [ none ↦ err Error.attribute_error | some p ↦ ok p ])
              (ok plugin)
          → o ≡ some plugin
      found none e = absurd (cc e)
      found (some p) e = cc e

      the_plugin-some :
          {plugin : PluginInfo} → the_plugin s name ≡ ok plugin → s.get_plugin name ≡ some plugin
      the_plugin-some {plugin} e = found (s.get_plugin name) e
