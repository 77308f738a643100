-- ===== src/Resources.antt =====
-- The objects of the conductor: dicts wrapped as immutable resources, and the dicts that the REST
-- API makes of them (sahara/conductor/resource.py).
pub mod Exposed
pub mod RoundTrip
mod Tests
use sahara.Base.{
  ℕ, Bool, true, false, not, ◌&&◌, ◌||◌, Option, none, some, String, List, [], ◌∷◌, Result, ok, err,
  Error, ◌>>=◌, if◌then◌else◌, str_eq, mem,
}

-- What a row holds; `unsupported` is an object of any other type.
mutual
  pub data Value : Type 0 where
    null : Value
    number : ℕ → Value
    text : String → Value
    unsupported : Value
    arr : Items → Value
    obj : Fields → Value

  pub data Items : Type 0 where
    nil : Items
    cons : Value → Items → Items

  pub data Fields : Type 0 where
    end : Fields
    field : String → Value → Fields → Fields

-- The resource classes; `plain` is Resource itself.
pub data Class : Type 0 where
  plain node_group_template instance_resource node_group cluster_template cluster_health_check :
      Class
  cluster_verification cluster data_source job_execution job_binary job_binary_internal job : Class

-- A wrapped value. `parent` is the resource that a back reference refers to.
mutual
  pub data Entity : Type 0 where
    nothing : Entity
    num : ℕ → Entity
    str : String → Entity
    parent : Entity
    frozen : Entities → Entity
    resource : Class → Attrs → Entity

  pub data Entities : Type 0 where
    done : Entities
    also : Entity → Entities → Entities

  pub data Attrs : Type 0 where
    no_more : Attrs
    attr : String → Entity → Attrs → Attrs

-- `_children`: the class of a child and the name of its back reference.
abbrev pub children : Class → List (String × (Class × Option String))
children node_group =
    ("instances", (instance_resource, some "node_group"))
    ∷ ("node_group_template", (node_group_template, none))
    ∷ []
children cluster_template = ("node_groups", (node_group, some "cluster_template")) ∷ []
children cluster_verification = ("checks", (cluster_health_check, some "verification")) ∷ []
children cluster =
    ("node_groups", (node_group, some "cluster"))
    ∷ ("cluster_template", (cluster_template, none))
    ∷ ("verification", (cluster_verification, some "cluster"))
    ∷ []
children job = ("mains", (job_binary, none)) ∷ ("libs", (job_binary, none)) ∷ []
children _ = []

abbrev pub filter_fields : Class → List String
filter_fields instance_resource = "tenant_id" ∷ "node_group_id" ∷ "volumes" ∷ []
filter_fields node_group =
    "tenant_id" ∷ "cluster_id" ∷ "cluster_template_id" ∷ "image_username" ∷ "open_ports" ∷ []
filter_fields cluster = "management_private_key" ∷ "extra" ∷ "rollback_info" ∷ "sahara_info" ∷ []
filter_fields data_source = "credentials" ∷ []
filter_fields job_execution = "extra" ∷ []
filter_fields job_binary = "extra" ∷ []
filter_fields _ = []

abbrev pub child_in : String → List (String × (Class × Option String)) → Class × Option String
child_in refname [] = (plain, none)
child_in refname ((name, child) ∷ rest) =
    if str_eq name refname then child else child_in refname rest

-- The class and the back reference of what a field holds.
abbrev pub child : Class → String → Class × Option String
child c refname = child_in refname (children c)

abbrev pub is_backref : Option String → String → Bool
is_backref none refname = false
is_backref (some backref) refname = str_eq backref refname

-- `dct[backref_name] = self`
abbrev pub back : Option String → Attrs
back none = no_more
back (some backref) = attr backref parent no_more

abbrev pub add_attr : String → Result Entity → Result Attrs → Result Attrs
add_attr refname e rest = do entity ← e; attrs ← rest; ok (attr refname entity attrs)

abbrev pub add_entity : Result Entity → Result Entities → Result Entities
add_entity e rest = do entity ← e; entities ← rest; ok (also entity entities)

-- `_wrap_entity`, `_wrap_list` and `_wrap_dict`, by the class and the back reference of the field.
unfoldable mutual
  pub wrap_entity : Class × Option String → Value → Result Entity
  wrap_entity child null = ok nothing
  wrap_entity child (number n) = ok (num n)
  wrap_entity child (text t) = ok (str t)
  wrap_entity child unsupported = err Error.type_error
  wrap_entity child (arr items) = wrap_list child items >>= λ es. ok (frozen es)
  wrap_entity (c, backref) (obj fs) = wrap_fields c backref fs >>= λ attrs. ok (resource c attrs)

  pub wrap_list : Class × Option String → Items → Result Entities
  wrap_list child nil = ok done
  wrap_list child (cons v items) = add_entity (wrap_entity child v) (wrap_list child items)

  -- A field with the name of the back reference gives way to it.
  pub wrap_fields : Class → Option String → Fields → Result Attrs
  wrap_fields c backref end = ok (back backref)
  wrap_fields c backref (field refname v fs) =
      let e = wrap_entity (child c refname) v in
      let rest = wrap_fields c backref fs in
      if is_backref backref refname then rest else add_attr refname e rest

-- The dict without a key.
abbrev pub without : String → Fields → Fields
without key end = end
without key (field k v fs) =
    let rest = without key fs in if str_eq k key then rest else field k v rest

-- `if key in configs: configs[key] = ""`
abbrev pub blanked : String → Fields → Fields
blanked key end = end
blanked key (field k v fs) =
    let rest = blanked key fs in if str_eq k key then field k (text "") rest else field k v rest

abbrev pub blanked_configs : Value → Result Value
blanked_configs (obj fs) = ok (
    obj
      (blanked "fs.swift.service.sahara.password" (blanked "fs.swift.service.sahara.username" fs)))
blanked_configs _ = err Error.type_error

-- `if 'configs' in job_configs`
abbrev pub sanitize_configs : Fields → Result Fields
sanitize_configs end = ok end
sanitize_configs (field k v fs) = do
  rest ← sanitize_configs fs
  if str_eq k "configs"
      then (blanked_configs v >>= λ w. ok (field k w rest))
      else ok (field k v rest)

-- `for d in info['actions']: if 'conf' in d: del d['conf']`
abbrev pub without_conf : Items → Result Items
without_conf nil = ok nil
without_conf (cons (obj d) items) =
    without_conf items >>= λ rest. ok (cons (obj (without "conf" d)) rest)
without_conf (cons _ items) = err Error.type_error

abbrev pub sanitized_actions : Value → Result Value
sanitized_actions (arr items) = without_conf items >>= λ rest. ok (arr rest)
sanitized_actions _ = err Error.type_error

abbrev pub sanitize_actions : Fields → Result Fields
sanitize_actions end = ok end
sanitize_actions (field k v fs) = do
  rest ← sanitize_actions fs
  if str_eq k "actions"
      then (sanitized_actions v >>= λ w. ok (field k w rest))
      else ok (field k v rest)

abbrev pub on_dict : (Fields → Result Fields) → Value → Result Value
on_dict f (obj fs) = f fs >>= λ gs. ok (obj gs)
on_dict f _ = err Error.type_error

-- `_sanitize_fields`: columns that hold a dict. On None, Python's `in` raises a TypeError.
unfoldable pub sanitize : Class → String → Value → Result Value
sanitize cluster refname v =
    if str_eq refname "cluster_configs"
    then on_dict (λ fs. ok (without "proxy_configs" fs)) v
    else ok v
sanitize job_execution refname v =
    if str_eq refname "job_configs"
    then on_dict
        (λ fs. sanitize_configs fs >>= λ gs. ok (without "proxy_configs" (without "trusts" gs))) v
    else if str_eq refname "info"
    then on_dict sanitize_actions v
    else ok v
sanitize _ refname v = ok v

abbrev pub is_hidden : Class → Option String → String → Bool
is_hidden c backref refname = is_backref backref refname || mem refname (filter_fields c)

abbrev pub add_field : Class → String → Result Value → Result Fields → Result Fields
add_field c refname v rest = do
  value ← v
  shown ← sanitize c refname value
  fields ← rest
  ok (field refname shown fields)

abbrev pub add_item : Result Value → Result Items → Result Items
add_item v rest = do value ← v; items ← rest; ok (cons value items)

-- `_to_dict`, `_entity_to_dict` and `_list_to_dict`, by the back reference of the child. To follow a
-- back reference would not end.
unfoldable mutual
  pub entity_to_dict : Option String → Entity → Result Value
  entity_to_dict backref nothing = ok null
  entity_to_dict backref (num n) = ok (number n)
  entity_to_dict backref (str t) = ok (text t)
  entity_to_dict backref parent = err Error.runtime_error
  entity_to_dict backref (frozen es) = list_to_dict backref es >>= λ items. ok (arr items)
  entity_to_dict backref (resource c attrs) = to_dict c backref attrs >>= λ fs. ok (obj fs)

  pub list_to_dict : Option String → Entities → Result Items
  list_to_dict backref done = ok nil
  list_to_dict backref (also e es) = add_item (entity_to_dict backref e) (list_to_dict backref es)

  pub to_dict : Class → Option String → Attrs → Result Fields
  to_dict c backref no_more = ok end
  to_dict c backref (attr refname e attrs) =
      let v = entity_to_dict (child c refname).1 e in
      let rest = to_dict c backref attrs in
      if is_hidden c backref refname then rest else add_field c refname v rest
