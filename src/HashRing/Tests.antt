-- ===== src/HashRing/Tests.antt =====
-- Two processes with one key each, a third that joins, and the theorems with them.
use sahara.Base.{
  ℕ, ◌≡◌, refl, true, false, ◌&&◌, String, List, [], ◌∷◌, arith, mem, str_eq, if◌then◌else◌,
}
use sahara.HashRing.{build_ring, check_object, owner, get_subset}
use sahara.HashRing.Shares.{get_subset-owner, get_subset-joined}

abbrev pub hash : String → ℕ
hash text =
    if str_eq text "p1"
    then 10
    else if str_eq text "p2"
    then 20
    else if str_eq text "p3"
    then 7
    else if str_eq text "a"
    then 5
    else if str_eq text "b"
    then 15
    else 25

abbrev pub label : String → ℕ → String
label member r = member

abbrev clusters : List String
clusters = "a" ∷ "b" ∷ "c" ∷ []

-- The hash of the last cluster is past the last key, and goes around to the first.
first_share : get_subset hash label 1 true "p1" ("p1" ∷ "p2" ∷ []) clusters ≡ "a" ∷ "c" ∷ []
unfolding get_subset build_ring check_object owner
first_share = refl

second_share : get_subset hash label 1 true "p2" ("p1" ∷ "p2" ∷ []) clusters ≡ "b" ∷ []
unfolding get_subset build_ring check_object owner
second_share = refl

uncoordinated : get_subset hash label 1 false "p2" [] clusters ≡ clusters
unfolding get_subset
uncoordinated = refl

get_subset-owner_example :
    (o : String) × (mem o ("p1" ∷ "p2" ∷ []) ≡ true)
    × ((id : String)
        → mem "b" (get_subset hash label 1 true id ("p1" ∷ "p2" ∷ []) clusters)
          ≡ (mem "b" clusters && str_eq o id))
get_subset-owner_example = get_subset-owner hash label 1 "p1" ("p2" ∷ []) clusters "b" (omega arith)

still_shared : mem "b" (get_subset hash label 1 true "p2" ("p1" ∷ "p2" ∷ "p3" ∷ []) clusters) ≡ true
unfolding get_subset build_ring check_object owner
still_shared = refl

get_subset-joined_example :
    mem "b" (get_subset hash label 1 true "p2" ("p1" ∷ "p2" ∷ []) clusters) ≡ true
get_subset-joined_example =
    get_subset-joined hash label 1 "p1" "p3" ("p2" ∷ []) clusters "b" "p2" (omega arith) refl
      still_shared
