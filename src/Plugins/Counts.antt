-- ===== src/Plugins/Counts.antt =====
-- How a scaling changes the instance counts of the processes.
use sahara.Base.{
  ℕ, ◌+◌, ◌<◌, ◌≡◌, refl, sym, ap, inl, inr, Bool, true, false, Option, none, some, String, List,
  [], ◌∷◌, map, ok, arith, Bool-cases, mem, all, All, length, length-append, if◌then◌else◌, eq_iff,
  is_some,
}
use sahara.Base.Dict.{Dict, lookup, contains}
use sahara.Objects.{NodeGroup, Instance}
use sahara.Ops.Surplus.{IsFull}
use sahara.Plugins.{
  the_instance, runs, get_node_groups, get_instances_count, get_instances, chain, get_instance,
  is_scalable,
}

-- A node group with its new count, if the map has one.
abbrev pub rescaled : Dict ℕ → NodeGroup → NodeGroup
rescaled m ng = record ng { count = elim (lookup ng.id m) [ none ↦ ng.count | some n ↦ n ] }

-- The cluster after the scaling.
abbrev pub rescale : Dict ℕ → List NodeGroup → List NodeGroup
rescale m ngs = map (rescaled m) ngs

-- A process that a scalable node group runs is a scalable one.
runs_scalable :
    (process : String) (scalable processes : List String)
    → all (λ p. mem p scalable) processes ≡ true
    → mem process scalable ≡ false
    → mem process processes ≡ false
runs_scalable process scalable [] h out = refl
runs_scalable process scalable (p ∷ ps) h out =
    ground (arith, eq_iff p process, runs_scalable process scalable ps)

-- What one node group counts for a process.
abbrev pub part : String → NodeGroup → ℕ
part process ng = if runs process ng then ng.count else 0

pub count_cons :
    (process : String) (ng : NodeGroup) (ngs : List NodeGroup)
    → get_instances_count process (ng ∷ ngs) ≡ part process ng + get_instances_count process ngs
unfolding get_instances_count
count_cons process ng ngs = elim (Bool-cases (runs process ng)) [
  | inl e ↦ rw e refl
  | inr e ↦ rw e (omega arith)
]

pub count_nil : (process : String) → get_instances_count process [] ≡ 0
unfolding get_instances_count
count_nil process = refl

-- Only scalable node groups get a new count.
abbrev pub Movable : List String → Dict ℕ → List NodeGroup → Type 0
Movable scalable m ngs = All (λ ng. contains ng.id m ≡ true → is_scalable scalable ng ≡ true) ngs

part_unmoved :
    (scalable : List String) (m : Dict ℕ) (process : String) (ng : NodeGroup)
    → mem process scalable ≡ false
    → (contains ng.id m ≡ true → is_scalable scalable ng ≡ true)
    → part process (rescaled m ng) ≡ part process ng
part_unmoved scalable m process ng out h = go (lookup ng.id m) refl
  where
    go : (o : Option ℕ) → lookup ng.id m ≡ o → part process (rescaled m ng) ≡ part process ng
    go none e = rw (e, rescaled) refl
    go (some n) e =
        rw (runs_scalable process scalable ng.node_processes (h (ap is_some e)) out) refl

-- A process that is not scalable keeps its count.
pub count_unmoved :
    (scalable : List String) (m : Dict ℕ) (process : String) (ngs : List NodeGroup)
    → mem process scalable ≡ false
    → Movable scalable m ngs
    → get_instances_count process (rescale m ngs) ≡ get_instances_count process ngs
count_unmoved scalable m process [] out h = refl
count_unmoved scalable m process (ng ∷ ngs) out (h, hs) = omega (
  arith,
  count_cons process (rescaled m ng) (rescale m ngs),
  count_cons process ng ngs,
  part_unmoved scalable m process ng out h,
  count_unmoved scalable m process ngs out hs,
)

-- With as many instances as it counts, a cluster has the instances of a process that it counts.
pub length-get_instances :
    (process : String) (ngs : List NodeGroup)
    → IsFull ngs
    → length (get_instances process ngs) ≡ get_instances_count process ngs
unfolding get_instances
length-get_instances process [] h = sym (count_nil process)
length-get_instances process (ng ∷ ngs) (h, hs) = elim (Bool-cases (runs process ng)) [
  | inl e ↦
      rw (count_cons process ng ngs, e)
        (omega (
          arith,
          length-append ng.instances (chain (get_node_groups process ngs)),
          h,
          length-get_instances process ngs hs,
        ))
  | inr e ↦ rw (count_cons process ng ngs, e) (omega (arith, length-get_instances process ngs hs))
]

without_instances : (is : List Instance) → length is ≡ 0 → the_instance is ≡ ok none
without_instances [] h = refl
without_instances (i ∷ is) h = absurd (omega (arith, h))

-- With a count of 0 there is no instance to find.
pub get_instance-none :
    (process : String) (ngs : List NodeGroup)
    → IsFull ngs
    → get_instances_count process ngs ≡ 0
    → get_instance process ngs ≡ ok none
unfolding get_instance
get_instance-none process ngs full z =
    without_instances (get_instances process ngs)
      (omega (arith, length-get_instances process ngs full, z))

-- A process without instances gets none, unless a node group that counted some gets a new count.
pub count_stays_zero :
    (m : Dict ℕ) (process : String) (ngs : List NodeGroup)
    → All (λ ng. contains ng.id m ≡ true → runs process ng ≡ true → 0 < ng.count) ngs
    → get_instances_count process ngs ≡ 0
    → get_instances_count process (rescale m ngs) ≡ 0
count_stays_zero m process [] h z = count_nil process
count_stays_zero m process (ng ∷ ngs) (h, hs) z = omega (
  arith,
  count_cons process (rescaled m ng) (rescale m ngs),
  part_stays_zero m process ng h (omega (arith, count_cons process ng ngs)),
  count_stays_zero m process ngs hs (omega (arith, count_cons process ng ngs)),
)
  where
    part_stays_zero :
        (m : Dict ℕ) (process : String) (ng : NodeGroup)
        → (contains ng.id m ≡ true → runs process ng ≡ true → 0 < ng.count)
        → part process ng ≡ 0
        → part process (rescaled m ng) ≡ 0
    part_stays_zero m process ng h z = go (lookup ng.id m) refl (runs process ng) refl
      where
        positive : runs process ng ≡ true → ng.count ≡ 0
        positive r = rw r at z

        go :
            (o : Option ℕ)
            → lookup ng.id m ≡ o
            → (b : Bool) → runs process ng ≡ b
            → part process (rescaled m ng) ≡ 0
        go o e false r = rw r refl
        go none e true r = rw (e, rescaled) (ground arith)
        go (some n) e true r = absurd (omega (arith, h (ap is_some e) r, positive r))
