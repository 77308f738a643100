-- ===== src/HashRing/Shares.antt =====
-- How the ring shares out the objects among its members.
use mathlib.Core.Path.{subst}
use sahara.Base.{
  ℕ, ◌≤◌, ◌≡◌, refl, sym, ap, ◌∙◌, ◌⊎◌, inl, inr, Bool, true, false, ◌&&◌, Option, none, some,
  String, List, [], ◌∷◌, ◌++◌, arith, is_some, mem, keep, str_eq, eq_iff,
}
use sahara.HashRing.{
  Ring, get, ring_keys, sorted, owner, is_member, place, place_all, build_ring, check_object,
  subset_of, get_subset,
}
use sahara.HashRing.Ring.{
  owner-IsNext, owner-added, get-place, place_grows, place_all_some, place_all-mem,
  place_all-append, has-ring_keys,
}

mem-keep :
    (x : String) (p : String → Bool) (xs : List String) → mem x (keep p xs) ≡ (mem x xs && p x)
mem-keep x p [] = refl
mem-keep x p (y ∷ ys) = ground (arith, mem-keep x p ys, eq_iff y x, λ (e : y ≡ x). ap p e)

module _ (hash : String → ℕ) (label : String → ℕ → String) (replicas : ℕ) where
  abbrev ring_of : List String → Ring
  ring_of members = place_all hash label replicas members []

  abbrev owner_of : List String → String → Option String
  owner_of members object =
      owner (ring_of members) (sorted (ring_keys (ring_of members))) (hash object)

  mem-subset_of :
      (id object : String) (objects : List String) (ring : Ring) (keys : List ℕ) (x : ℕ)
      → is_some (get x ring) ≡ true
      → mem object (subset_of hash label replicas id objects (ring, keys))
        ≡ (mem object objects && is_member (owner ring keys (hash object)) id)
  unfolding check_object
  mem-subset_of id object objects [] keys x there = absurd (cc there)
  mem-subset_of id object objects (entry ∷ ring) keys x there =
      mem-keep object (λ o. is_member (owner (entry ∷ ring) keys (hash o)) id) objects

  mem-get_subset :
      (id object : String) (objects : List String) (m : String) (members : List String)
      → 1 ≤ replicas
      → mem object (get_subset hash label replicas true id (m ∷ members) objects)
        ≡ (mem object objects && is_member (owner_of (m ∷ members) object) id)
  unfolding get_subset build_ring
  mem-get_subset id object objects m members h =
      let (x, there) = place_all_some hash label replicas m members [] h in
      mem-subset_of id object objects (ring_of (m ∷ members))
        (sorted (ring_keys (ring_of (m ∷ members)))) x there

  -- Every object has an owner on the ring, which is a member.
  owner_of-mem :
      (m : String) (members : List String) (object : String)
      → 1 ≤ replicas
      → (o : String) × (owner_of (m ∷ members) object ≡ some o) × (mem o (m ∷ members) ≡ true)
  owner_of-mem m members object h =
      let (x, there) = place_all_some hash label replicas m members [] h in
      let (key, next, owns) = owner-IsNext (ring_of (m ∷ members)) (hash object) x there in
      let (o, found) =
        present (get key (ring_of (m ∷ members)))
          (sym (has-ring_keys key (ring_of (m ∷ members))) ∙ next.0) in
      (
        o,
        owns ∙ found,
        elim (place_all-mem hash label replicas (m ∷ members) [] key o found) [
          | inl there ↦ there
          | inr nowhere ↦ absurd (cc nowhere)
        ],
      )
    where
      present : (r : Option String) → is_some r ≡ true → (o : String) × (r ≡ some o)
      present none e = absurd (cc e)
      present (some o) e = (o, refl)

  -- With a replica and a member at least, each object is in the share of exactly one member: there
  -- is a member whose share it is in, and nobody else's share has it.
  pub get_subset-owner :
      (m : String) (members objects : List String) (object : String)
      → 1 ≤ replicas
      → (o : String) × (mem o (m ∷ members) ≡ true)
        × ((id : String)
            → mem object (get_subset hash label replicas true id (m ∷ members) objects)
              ≡ (mem object objects && str_eq o id))
  get_subset-owner m members objects object h =
      let (o, owns, there) = owner_of-mem m members object h in
      (
        o,
        there,
        λ id.
            mem-get_subset id object objects m members h
            ∙ ap (λ r. mem object objects && is_member r id) owns,
      )

  owner_of-joined :
      (m new : String) (members : List String) (object : String)
      → 1 ≤ replicas
      → (owner_of (m ∷ (members ++ (new ∷ []))) object ≡ some new)
        ⊎ (owner_of (m ∷ (members ++ (new ∷ []))) object ≡ owner_of (m ∷ members) object)
  owner_of-joined m new members object h =
      let (x, there) = place_all_some hash label replicas m members [] h in
      subst
        (λ ring.
          (owner ring (sorted (ring_keys ring)) (hash object) ≡ some new)
          ⊎ (owner ring (sorted (ring_keys ring)) (hash object) ≡ owner_of (m ∷ members) object))
        (sym (place_all-append hash label replicas (m ∷ members) new []))
        (owner-added (ring_of (m ∷ members))
          (place hash label replicas new replicas (ring_of (m ∷ members))) (hash object) x new there
          (get-place hash label replicas new replicas (ring_of (m ∷ members)))
          (place_grows hash label replicas new replicas (ring_of (m ∷ members))))

  -- A member that joins last takes objects over, and the other members exchange none: what is in
  -- the share of another member was in its share before.
  pub get_subset-joined :
      (m new : String) (members objects : List String) (object id : String)
      → 1 ≤ replicas
      → str_eq new id ≡ false
      → mem object (get_subset hash label replicas true id (m ∷ members ++ (new ∷ [])) objects)
        ≡ true
      → mem object (get_subset hash label replicas true id (m ∷ members) objects) ≡ true
  get_subset-joined m new members objects object id h other there =
      let before = sym (mem-get_subset id object objects m (members ++ (new ∷ [])) h) ∙ there in
      mem-get_subset id object objects m members h ∙ elim (owner_of-joined m new members object h) [
        | inl theirs ↦ absurd (
            taken (mem object objects) other
              (ap (λ r. mem object objects && is_member r id) (sym theirs) ∙ before))
        | inr same ↦ ap (λ r. mem object objects && is_member r id) (sym same) ∙ before
      ]
    where
      taken : (b : Bool) → str_eq new id ≡ false → (b && str_eq new id) ≡ true → ⊥
      taken b e t = ground (arith, e, t)
