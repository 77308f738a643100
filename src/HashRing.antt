-- ===== src/HashRing.antt =====
-- The hash ring that shares out the periodic work among the processes
-- (sahara/service/coordinator.py).
pub mod Search
pub mod Ring
pub mod Shares
pub mod Tests
use sahara.Base.{
  ℕ, zero, suc, ◌+◌, Bool, true, false, not, ◌&&◌, Option, none, some, String, List, [], ◌∷◌,
  if◌then◌else◌, str_eq, ◌==◌, ltb, leb, keep, length,
}

-- The dict of the ring: the member at a hashed key.
abbrev pub Ring : Type 0
Ring = List (ℕ × String)

-- `ring[key] = member`
abbrev pub put : ℕ → String → Ring → Ring
put key member [] = (key, member) ∷ []
put key member ((k, m) ∷ ring) =
    if k == key then (k, member) ∷ ring else (k, m) ∷ put key member ring

-- `ring[key]`, none for a KeyError
abbrev pub get : ℕ → Ring → Option String
get key [] = none
get key ((k, m) ∷ ring) = if k == key then some m else get key ring

abbrev pub ring_keys : Ring → List ℕ
ring_keys [] = []
ring_keys ((k, m) ∷ ring) = k ∷ ring_keys ring

abbrev pub insert_key : ℕ → List ℕ → List ℕ
insert_key key [] = key ∷ []
insert_key key (k ∷ keys) = if leb key k then key ∷ k ∷ keys else k ∷ insert_key key keys

-- `sorted(keys)`
abbrev pub sorted : List ℕ → List ℕ
sorted [] = []
sorted (k ∷ keys) = insert_key k (sorted keys)

-- `bisect.bisect(sorted_keys, hashed_key)`: where the first larger key stands, the length without one.
abbrev pub bisect : List ℕ → ℕ → ℕ
bisect [] hashed_key = 0
bisect (k ∷ keys) hashed_key = if ltb hashed_key k then 0 else suc (bisect keys hashed_key)

-- `sorted_keys[position]`, none for an IndexError
abbrev pub nth : ℕ → List ℕ → Option ℕ
nth position [] = none
nth zero (k ∷ keys) = some k
nth (suc position) (k ∷ keys) = nth position keys

-- `position if position < len(sorted_keys) else 0`
abbrev pub position_of : List ℕ → ℕ → ℕ
position_of keys hashed_key =
    if ltb (bisect keys hashed_key) (length keys) then bisect keys hashed_key else 0

abbrev pub member_at : Option ℕ → Ring → Option String
member_at none ring = none
member_at (some key) ring = get key ring

-- `ring[sorted_keys[position]]`
unfoldable pub owner : Ring → List ℕ → ℕ → Option String
owner ring sorted_keys hashed_key =
    member_at (nth (position_of sorted_keys hashed_key) sorted_keys) ring

abbrev pub is_member : Option String → String → Bool
is_member none member_id = false
is_member (some m) member_id = str_eq m member_id

-- The hash of a text as a number, the text '%s:%s' of a member and a number, and the option
-- hash_ring_replicas_count.
module _ (hash : String → ℕ) (label : String → ℕ → String) (replicas : ℕ) where
  -- The inner loop of `_build_ring`, up to a number of replicas.
  abbrev pub place : String → ℕ → Ring → Ring
  place member zero ring = ring
  place member (suc r) ring = put (hash (label member r)) member (place member r ring)

  abbrev pub place_all : List String → Ring → Ring
  place_all [] ring = ring
  place_all (member ∷ members) ring = place_all members (place member replicas ring)

  unfoldable pub build_ring : List String → Ring × List ℕ
  build_ring members = (place_all members [], sorted (ring_keys (place_all members [])))

  -- An object stands for its id.
  unfoldable pub check_object : String → String → Ring → List ℕ → Bool
  unfolding owner
  check_object member_id object ring sorted_keys =
      is_member (owner ring sorted_keys (hash object)) member_id

  -- `if ring`
  abbrev pub subset_of : String → List String → Ring × List ℕ → List String
  subset_of member_id objects ([], keys) = []
  subset_of member_id objects (entry ∷ ring, keys) =
      keep (λ object. check_object member_id object (entry ∷ ring) keys) objects

  -- `members` is what the coordinator answers, and `coordinated` whether there is one.
  unfoldable pub get_subset : Bool → String → List String → List String → List String
  unfolding build_ring check_object
  get_subset coordinated member_id members objects =
      if coordinated then subset_of member_id objects (build_ring members) else objects
