-- ===== src/HashRing/Ring.antt =====
-- What the ring holds as members are placed on it, and whom it gives an object to.
use sahara.Base.{
  has, ℕ, zero, suc, ◌≤◌, ◌≡◌, refl, sym, ap, ◌∙◌, ◌⊎◌, inl, inr, true, false, some, String, List,
  [], ◌∷◌, ◌++◌, if◌then◌else◌, ◌==◌, arith, Bool-cases, is_some, mem, eq_iff,
}
use sahara.HashRing.{Ring, put, get, ring_keys, sorted, member_at, owner, place, place_all}
use sahara.HashRing.Search.{IsNext, IsNext-unique, IsNext-fewer, sorted-IsNext}

get-put :
    (j key : ℕ) (member : String) (ring : Ring)
    → get j (put key member ring) ≡ (if key == j then some member else get j ring)
get-put j key member [] = refl
get-put j key member ((k, m) ∷ ring) = ground (arith, get-put j key member ring)

put_here : (key : ℕ) (member : String) (ring : Ring) → get key (put key member ring) ≡ some member
put_here key member ring = get-put key key member ring ∙ ground arith

put_elsewhere :
    (j key : ℕ) (member : String) (ring : Ring)
    → (key == j) ≡ false
    → get j (put key member ring) ≡ get j ring
put_elsewhere j key member ring e = get-put j key member ring ∙ rw e refl

pub has-ring_keys : (j : ℕ) (ring : Ring) → has j (ring_keys ring) ≡ is_some (get j ring)
has-ring_keys j [] = refl
has-ring_keys j ((k, m) ∷ ring) = ground (arith, has-ring_keys j ring)

-- Where an object of this hash goes: the member at the next key of the ring.
pub owner-IsNext :
    (ring : Ring) (h x : ℕ)
    → is_some (get x ring) ≡ true
    → (key : ℕ) × IsNext h (ring_keys ring) key
      × (owner ring (sorted (ring_keys ring)) h ≡ get key ring)
unfolding owner
owner-IsNext ring h x there =
    let (key, found, next) = sorted-IsNext h x (ring_keys ring) (has-ring_keys x ring ∙ there) in
    (key, next, ap (λ o. member_at o ring) found)

-- More keys, which may belong to one more member, give an object to that member or leave it where
-- it is.
pub owner-added :
    (ring more : Ring) (h x : ℕ) (new : String)
    → is_some (get x ring) ≡ true
    → ((j : ℕ) → (get j more ≡ some new) ⊎ (get j more ≡ get j ring))
    → ((j : ℕ) → is_some (get j ring) ≡ true → is_some (get j more) ≡ true)
    → (owner more (sorted (ring_keys more)) h ≡ some new)
      ⊎ (owner more (sorted (ring_keys more)) h ≡ owner ring (sorted (ring_keys ring)) h)
owner-added ring more h x new there added grows =
    let (key, next, owns) = owner-IsNext more h x (grows x there) in
    let (old, next_old, owned) = owner-IsNext ring h x there in
    elim (added key) [
      | inl theirs ↦ inl (owns ∙ theirs)
      | inr same ↦
          let in_ring =
            has-ring_keys key ring
            ∙ ap is_some (sym same)
            ∙ sym (has-ring_keys key more)
            ∙ next.0 in
          let stays =
            IsNext-fewer h (ring_keys more) (ring_keys ring) key
              (λ j in_it. has-ring_keys j more ∙ grows j (sym (has-ring_keys j ring) ∙ in_it))
              in_ring next in
          inr (
            owns
            ∙ same
            ∙ ap (λ k. get k ring) (IsNext-unique h (ring_keys ring) key old stays next_old)
            ∙ sym owned)
    ]

module _ (hash : String → ℕ) (label : String → ℕ → String) (replicas : ℕ) where
  -- A member that is placed takes keys for itself only.
  pub get-place :
      (member : String) (n : ℕ) (ring : Ring) (j : ℕ)
      → (get j (place hash label replicas member n ring) ≡ some member)
        ⊎ (get j (place hash label replicas member n ring) ≡ get j ring)
  get-place member zero ring j = inr refl
  get-place member (suc n) ring j = elim (Bool-cases (hash (label member n) == j)) [
    | inl here ↦ inl (
        get-put j (hash (label member n)) member (place hash label replicas member n ring)
        ∙ rw here refl)
    | inr other ↦
        let same =
          put_elsewhere j (hash (label member n)) member (place hash label replicas member n ring)
            other in
        elim (get-place member n ring j) [
          | inl theirs ↦ inl (same ∙ theirs)
          | inr old ↦ inr (same ∙ old)
        ]
  ]

  pub place_grows :
      (member : String) (n : ℕ) (ring : Ring) (j : ℕ)
      → is_some (get j ring) ≡ true
      → is_some (get j (place hash label replicas member n ring)) ≡ true
  place_grows member n ring j there = elim (get-place member n ring j) [
    | inl theirs ↦ ap is_some theirs
    | inr old ↦ ap is_some old ∙ there
  ]

  pub place_all_grows :
      (members : List String) (ring : Ring) (j : ℕ)
      → is_some (get j ring) ≡ true
      → is_some (get j (place_all hash label replicas members ring)) ≡ true
  place_all_grows [] ring j there = there
  place_all_grows (m ∷ members) ring j there =
      place_all_grows members (place hash label replicas m replicas ring) j
        (place_grows m replicas ring j there)

  -- With a replica at least, a member is on the ring.
  place_some :
      (member : String) (n : ℕ) (ring : Ring)
      → 1 ≤ n
      → (key : ℕ) × (is_some (get key (place hash label replicas member n ring)) ≡ true)
  place_some member zero ring h = absurd (omega (arith, h))
  place_some member (suc n) ring h = (
    hash (label member n),
    ap is_some (put_here (hash (label member n)) member (place hash label replicas member n ring)),
  )

  pub place_all_some :
      (m : String) (members : List String) (ring : Ring)
      → 1 ≤ replicas
      → (key : ℕ) × (is_some (get key (place_all hash label replicas (m ∷ members) ring)) ≡ true)
  place_all_some m members ring h =
      let (key, there) = place_some m replicas ring h in
      (key, place_all_grows members (place hash label replicas m replicas ring) key there)

  -- The ring gives objects to its members only.
  pub place_all-mem :
      (members : List String) (ring : Ring) (j : ℕ) (m : String)
      → get j (place_all hash label replicas members ring) ≡ some m
      → (mem m members ≡ true) ⊎ (get j ring ≡ some m)
  place_all-mem [] ring j m h = inr h
  place_all-mem (x ∷ members) ring j m h =
      elim (place_all-mem members (place hash label replicas x replicas ring) j m h) [
        | inl there ↦ inl (ground (arith, there))
        | inr placed ↦ elim (get-place x replicas ring j) [
          | inl theirs ↦ inl (first x m members (some_injective (sym theirs ∙ placed)))
          | inr old ↦ inr (sym old ∙ placed)
        ]
      ]
    where
      some_injective : {x y : String} → some x ≡ some y → x ≡ y
      some_injective h = cc h

      first : (x m : String) (members : List String) → x ≡ m → mem m (x ∷ members) ≡ true
      first x m members e = ground (arith, eq_iff x m, e)

  pub place_all-append :
      (members : List String) (new : String) (ring : Ring)
      → place_all hash label replicas (members ++ (new ∷ [])) ring
        ≡ place hash label replicas new replicas (place_all hash label replicas members ring)
  place_all-append [] new ring = refl
  place_all-append (m ∷ members) new ring =
      place_all-append members new (place hash label replicas m replicas ring)
