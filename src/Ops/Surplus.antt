-- ===== src/Ops/Surplus.antt =====
-- The instances that a scaling takes away.
use Prim.Native.Nat.{min}
use sahara.Base.{
  ℕ, zero, suc, ◌+◌, ◌-◌, ◌≤◌, ◌≡◌, refl, sym, ap, ◌∙◌, Option, none, some, List, [], ◌∷◌, ◌++◌,
  Result, ok, err, inl, inr, Bool-cases, ok-injective, arith, ltb, if◌then◌else◌, length,
  length-append,
}
use sahara.Base.Dict.{Dict, lookup}
use sahara.Objects.{NodeGroup, Instance}
use sahara.Ops.{slice, surplus}

-- The counts and the instances of the node groups agree.
abbrev pub IsFull : List NodeGroup → Type 0
IsFull [] = Unit
IsFull (ng ∷ ngs) = (length ng.instances ≡ ng.count) × IsFull ngs

-- The counts that remain: the smaller of the old and the new count.
abbrev pub remaining : Dict ℕ → List NodeGroup → ℕ
remaining m [] = 0
remaining m (ng ∷ ngs) = elim (lookup ng.id m) [
  | none ↦ remaining m ngs
  | some new_count ↦ min new_count ng.count + remaining m ngs
]

-- All but the first `n` instances.
abbrev pub beyond : ℕ → List Instance → List Instance
beyond zero is = is
beyond (suc n) [] = []
beyond (suc n) (i ∷ is) = beyond n is

-- The instances of each node group that its new count leaves no room for, in the order of the
-- node groups.
abbrev pub all_beyond : Dict ℕ → List NodeGroup → List Instance
all_beyond m [] = []
all_beyond m (ng ∷ ngs) = elim (lookup ng.id m) [
  | none ↦ all_beyond m ngs
  | some new_count ↦ beyond new_count ng.instances ++ all_beyond m ngs
]

abbrev pub total_count : List NodeGroup → ℕ
total_count [] = 0
total_count (ng ∷ ngs) = ng.count + total_count ngs

length-slice :
    (is : List Instance) (start stop : ℕ)
    → stop ≤ length is
    → length (slice is start stop) ≡ stop - start
unfolding slice
length-slice [] start stop h = omega arith
length-slice (i ∷ is) start zero h = omega arith
length-slice (i ∷ is) zero (suc stop) h = omega (arith, length-slice is zero stop)
length-slice (i ∷ is) (suc start) (suc stop) h = omega (arith, length-slice is start stop)

taken : NodeGroup → ℕ → List Instance
taken ng new_count = if ltb new_count ng.count then slice ng.instances new_count ng.count else []

length-taken :
    (ng : NodeGroup) (new_count : ℕ)
    → length ng.instances ≡ ng.count
    → length (taken ng new_count) + min new_count ng.count ≡ ng.count
unfolding taken
length-taken ng new_count h = elim (Bool-cases (ltb new_count ng.count)) [
  | inl fewer ↦ rw fewer (ground (arith, length-slice ng.instances new_count ng.count))
  | inr enough ↦ rw enough (ground arith)
]

-- One round of the loop that returned.
surplus_cons :
    (m : Dict ℕ) (ng : NodeGroup) (ngs : List NodeGroup) {is : List Instance}
    → surplus m (ng ∷ ngs) ≡ ok is
    → (n : ℕ) × (rest : List Instance) × (lookup ng.id m ≡ some n)
      × (surplus m ngs ≡ ok rest)
      × (is ≡ taken ng n ++ rest)
unfolding surplus taken
surplus_cons m ng ngs {is} h = go (lookup ng.id m) refl (surplus m ngs) refl
  where
    go :
        (o : Option ℕ)
        → lookup ng.id m ≡ o
        → (r : Result (List Instance)) → surplus m ngs ≡ r
        → (n : ℕ) × (rest : List Instance) × (lookup ng.id m ≡ some n)
          × (surplus m ngs ≡ ok rest)
          × (is ≡ taken ng n ++ rest)
    go none e r e' = cc (rw (e, surplus) at h)
    go (some n) e (err x) e' = cc (rw (e, e', surplus) at h)
    go (some n) e (ok rest) e' = (n, rest, e, e', sym (ok-injective (rw (e, e', surplus) at h)))

remaining_found :
    (m : Dict ℕ) (ng : NodeGroup) (ngs : List NodeGroup) (n : ℕ)
    → lookup ng.id m ≡ some n
    → remaining m (ng ∷ ngs) ≡ min n ng.count + remaining m ngs
remaining_found m ng ngs n found = rw (found, remaining) refl

-- One round of the count.
count_cons :
    (m : Dict ℕ) (ng : NodeGroup) (ngs : List NodeGroup) (is rest : List Instance) (n : ℕ)
    → length ng.instances ≡ ng.count
    → lookup ng.id m ≡ some n
    → is ≡ taken ng n ++ rest
    → length rest + remaining m ngs ≡ total_count ngs
    → length is + remaining m (ng ∷ ngs) ≡ total_count (ng ∷ ngs)
count_cons m ng ngs is rest n h found split ih = omega (
  arith,
  ap length split,
  length-append (taken ng n) rest,
  remaining_found m ng ngs n found,
  length-taken ng n h,
  ih,
)

slice-beyond : (is : List Instance) (n stop : ℕ) → length is ≡ stop → slice is n stop ≡ beyond n is
unfolding slice
slice-beyond [] zero stop h = refl
slice-beyond [] (suc n) stop h = refl
slice-beyond (i ∷ is) n zero h = absurd (omega (arith, h))
slice-beyond (i ∷ is) zero (suc stop) h =
    ap (λ t. i ∷ t) (slice-beyond is zero stop (omega (arith, h)))
slice-beyond (i ∷ is) (suc n) (suc stop) h = slice-beyond is n stop (omega (arith, h))

beyond_all : (is : List Instance) (n : ℕ) → length is ≤ n → beyond n is ≡ []
beyond_all [] zero h = refl
beyond_all [] (suc n) h = refl
beyond_all (i ∷ is) zero h = absurd (omega (arith, h))
beyond_all (i ∷ is) (suc n) h = beyond_all is n (omega (arith, h))

taken-beyond :
    (ng : NodeGroup) (new_count : ℕ)
    → length ng.instances ≡ ng.count
    → taken ng new_count ≡ beyond new_count ng.instances
unfolding taken
taken-beyond ng new_count h = elim (Bool-cases (ltb new_count ng.count)) [
  | inl fewer ↦ rw fewer (slice-beyond ng.instances new_count ng.count h)
  | inr enough ↦ rw enough (sym (beyond_all ng.instances new_count (ground (arith, h, enough))))
]

-- What is decommissioned and what remains make up the cluster.
length-surplus :
    (m : Dict ℕ) (node_groups : List NodeGroup) {is : List Instance}
    → IsFull node_groups
    → surplus m node_groups ≡ ok is
    → length is + remaining m node_groups ≡ total_count node_groups
unfolding surplus
length-surplus m [] h e = rw (sym (ok-injective e)) refl
length-surplus m (ng ∷ ngs) {is} (h, hs) e =
    let (n, rest, found, e', split) = surplus_cons m ng ngs e in
    count_cons m ng ngs is rest n h found split (length-surplus m ngs hs e')

all_beyond_found :
    (m : Dict ℕ) (ng : NodeGroup) (ngs : List NodeGroup) (n : ℕ)
    → lookup ng.id m ≡ some n
    → all_beyond m (ng ∷ ngs) ≡ beyond n ng.instances ++ all_beyond m ngs
all_beyond_found m ng ngs n found = rw (found, all_beyond) refl

surplus-eq-all_beyond :
    (m : Dict ℕ) (node_groups : List NodeGroup) {is : List Instance}
    → IsFull node_groups
    → surplus m node_groups ≡ ok is
    → is ≡ all_beyond m node_groups
unfolding surplus
surplus-eq-all_beyond m [] h e = sym (ok-injective e)
surplus-eq-all_beyond m (ng ∷ ngs) {is} (h, hs) e =
    let (n, rest, found, e', split) = surplus_cons m ng ngs e in
    split
    ∙ ap (λ t. t ++ rest) (taken-beyond ng n h)
    ∙ ap (λ t. beyond n ng.instances ++ t) (surplus-eq-all_beyond m ngs hs e')
    ∙ sym (all_beyond_found m ng ngs n found)

-- Where every node group has as many instances as it counts and the loop returns, it takes from
-- each node group exactly the instances after the first as many as its new count, in the order of
-- the node groups; and as many are taken and remain, the smaller of the old and the new count in
-- each node group, as the cluster counts.
pub surplus-all_beyond :
    (m : Dict ℕ) (node_groups : List NodeGroup) {is : List Instance}
    → IsFull node_groups
    → surplus m node_groups ≡ ok is
    → (is ≡ all_beyond m node_groups)
      × (length is + remaining m node_groups ≡ total_count node_groups)
surplus-all_beyond m node_groups h e =
    (surplus-eq-all_beyond m node_groups h e, length-surplus m node_groups h e)
