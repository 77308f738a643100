-- ===== src/HashRing/Search.antt =====
-- The search of the ring finds the next key, whatever the order in which the keys were put.
use sahara.Base.{
  has, ℕ, suc, ◌≤◌, ◌<◌, ◌≡◌, refl, sym, ap, ◌∙◌, ◌⊎◌, inl, inr, true, some, List, [], ◌∷◌, ◌==◌,
  ltb, leb, length, arith, Bool-cases, All,
}
use sahara.HashRing.{insert_key, sorted, bisect, nth, position_of}

-- The smallest key above the hash, or the smallest of all where there is none above.
abbrev pub IsNext : ℕ → List ℕ → ℕ → Type 0
IsNext h keys k =
    (has k keys ≡ true)
    × (((h < k) × ((j : ℕ) → has j keys ≡ true → h < j → k ≤ j))
        ⊎ (((j : ℕ) → has j keys ≡ true → j ≤ h) × ((j : ℕ) → has j keys ≡ true → k ≤ j)))

-- There is one next key only.
pub IsNext-unique : (h : ℕ) (keys : List ℕ) (k l : ℕ) → IsNext h keys k → IsNext h keys l → k ≡ l
IsNext-unique h keys k l (here, inl (above, least)) (there, inl (above', least')) =
    omega (arith, least l there above', least' k here above)
IsNext-unique h keys k l (here, inl (above, least)) (there, inr (below, least')) =
    absurd (omega (arith, below k here, above))
IsNext-unique h keys k l (here, inr (below, least)) (there, inl (above', least')) =
    absurd (omega (arith, below l there, above'))
IsNext-unique h keys k l (here, inr (below, least)) (there, inr (below', least')) =
    omega (arith, least l there, least' k here)

-- With fewer keys a next key that is left is still the next one.
pub IsNext-fewer :
    (h : ℕ) (keys fewer : List ℕ) (k : ℕ)
    → ((j : ℕ) → has j fewer ≡ true → has j keys ≡ true)
    → has k fewer ≡ true
    → IsNext h keys k
    → IsNext h fewer k
IsNext-fewer h keys fewer k sub here (_, inl (above, least)) =
    (here, inl (above, λ j there. least j (sub j there)))
IsNext-fewer h keys fewer k sub here (_, inr (below, least)) =
    (here, inr ((λ j there. below j (sub j there)), λ j there. least j (sub j there)))

abbrev IsSorted : List ℕ → Type 0
IsSorted [] = Unit
IsSorted (k ∷ keys) = All (λ j. k ≤ j) keys × IsSorted keys

has-insert_key : (j key : ℕ) (keys : List ℕ) → has j (insert_key key keys) ≡ has j (key ∷ keys)
has-insert_key j key [] = refl
has-insert_key j key (k ∷ keys) = ground (arith, has-insert_key j key keys)

pub has-sorted : (j : ℕ) (keys : List ℕ) → has j (sorted keys) ≡ has j keys
has-sorted j [] = refl
has-sorted j (k ∷ keys) = ground (arith, has-insert_key j k (sorted keys), has-sorted j keys)

All-insert_key :
    (b key : ℕ) (keys : List ℕ)
    → b ≤ key
    → All (λ j. b ≤ j) keys
    → All (λ j. b ≤ j) (insert_key key keys)
All-insert_key b key [] low h = (low, tt)
All-insert_key b key (k ∷ keys) low (h, hs) = elim (Bool-cases (leb key k)) [
  | inl before ↦ rw before (low, (h, hs))
  | inr after ↦ rw after (h, All-insert_key b key keys low hs)
]

All-lower : (b c : ℕ) (keys : List ℕ) → b ≤ c → All (λ j. c ≤ j) keys → All (λ j. b ≤ j) keys
All-lower b c [] low h = tt
All-lower b c (k ∷ keys) low (h, hs) = (omega arith, All-lower b c keys low hs)

insert_key-IsSorted : (key : ℕ) (keys : List ℕ) → IsSorted keys → IsSorted (insert_key key keys)
insert_key-IsSorted key [] h = (tt, tt)
insert_key-IsSorted key (k ∷ keys) (h, hs) = elim (Bool-cases (leb key k)) [
  | inl before ↦
      rw before ((ground (arith, before), All-lower key k keys (ground (arith, before)) h), (h, hs))
  | inr after ↦
      rw after
        (All-insert_key k key keys (ground (arith, after)) h, insert_key-IsSorted key keys hs)
]

pub sorted-IsSorted : (keys : List ℕ) → IsSorted (sorted keys)
sorted-IsSorted [] = tt
sorted-IsSorted (k ∷ keys) = insert_key-IsSorted k (sorted keys) (sorted-IsSorted keys)

lower_bound : (b j : ℕ) (keys : List ℕ) → All (λ k. b ≤ k) keys → has j keys ≡ true → b ≤ j
lower_bound b j [] h there = absurd (cc there)
lower_bound b j (k ∷ keys) (h, hs) there = elim (Bool-cases (k == j)) [
  | inl e ↦ ground (arith, e)
  | inr e ↦ lower_bound b j keys hs (rw e at there)
]

-- What the search of a sorted list finds, if it finds anything: the first key above the hash.
abbrev FirstAbove : ℕ → List ℕ → Type 0
FirstAbove h keys =
    ((bisect keys h ≡ length keys) × ((j : ℕ) → has j keys ≡ true → j ≤ h))
    ⊎ ((k : ℕ) × (nth (bisect keys h) keys ≡ some k)
        × (bisect keys h < length keys)
        × (has k keys ≡ true)
        × (h < k)
        × ((j : ℕ) → has j keys ≡ true → h < j → k ≤ j))

bisect_passes : (h k : ℕ) (keys : List ℕ) → k ≤ h → bisect (k ∷ keys) h ≡ suc (bisect keys h)
bisect_passes h k keys low = ground arith

has_cons : (j k : ℕ) (keys : List ℕ) → has j (k ∷ keys) ≡ true → (k ≡ j) ⊎ (has j keys ≡ true)
has_cons j k keys there = elim (Bool-cases (k == j)) [
  | inl e ↦ inl (ground (arith, e))
  | inr e ↦ inr (rw e at there)
]

FirstAbove-later : (h k : ℕ) (keys : List ℕ) → k ≤ h → FirstAbove h keys → FirstAbove h (k ∷ keys)
FirstAbove-later h k keys low (inl (e, below)) = inl (
  omega (arith, bisect_passes h k keys low, e),
  λ j there. elim (has_cons j k keys there) [ inl same ↦ omega arith | inr later ↦ below j later ],
)
FirstAbove-later h k keys low (inr (l, found, inside, there, up, least)) = inr (
  l,
  ap (λ p. nth p (k ∷ keys)) (bisect_passes h k keys low) ∙ found,
  omega (arith, bisect_passes h k keys low, inside),
  ground (arith, there),
  up,
  λ j in_keys above. elim (has_cons j k keys in_keys) [
    | inl same ↦ absurd (omega arith)
    | inr later ↦ least j later above
  ],
)

bisect-FirstAbove : (h : ℕ) (keys : List ℕ) → IsSorted keys → FirstAbove h keys
bisect-FirstAbove h [] s = inl (refl, λ j there. absurd (cc there))
bisect-FirstAbove h (k ∷ keys) (low, s) = elim (Bool-cases (ltb h k)) [
  | inl above ↦ rw above (
      inr (
        k,
        refl,
        omega arith,
        ground arith,
        ground (arith, above),
        λ j there up. lower_bound k j (k ∷ keys) (omega arith, low) there,
      ))
  | inr below ↦ FirstAbove-later h k keys (ground (arith, below)) (bisect-FirstAbove h keys s)
]

position_inside :
    (h : ℕ) (keys : List ℕ) → bisect keys h < length keys → position_of keys h ≡ bisect keys h
position_inside h keys e = ground arith

position_wraps : (h : ℕ) (keys : List ℕ) → bisect keys h ≡ length keys → position_of keys h ≡ 0
position_wraps h keys e = ground arith

-- The search finds the next key, if there is any key.
pub nth-IsNext :
    (h x : ℕ) (keys : List ℕ)
    → has x keys ≡ true
    → IsSorted keys
    → (l : ℕ) × (nth (position_of keys h) keys ≡ some l) × IsNext h keys l
nth-IsNext h x [] x_in s = absurd (cc x_in)
nth-IsNext h x (k ∷ keys) x_in (low, s) = elim (bisect-FirstAbove h (k ∷ keys) (low, s)) [
  | inl (e, below) ↦ (
    k,
    ap (λ p. nth p (k ∷ keys)) (position_wraps h (k ∷ keys) e),
    (ground arith, inr (below, λ j there. lower_bound k j (k ∷ keys) (omega arith, low) there)),
  )
  | inr (l, found, inside, there, up, least) ↦ (
    l,
    ap (λ p. nth p (k ∷ keys)) (position_inside h (k ∷ keys) inside) ∙ found,
    (there, inl (up, least)),
  )
]

-- The search among the keys put in order finds the next of the keys.
pub sorted-IsNext :
    (h x : ℕ) (keys : List ℕ)
    → has x keys ≡ true
    → (l : ℕ) × (nth (position_of (sorted keys) h) (sorted keys) ≡ some l) × IsNext h keys l
sorted-IsNext h x keys x_in =
    let (l, found, next) =
      nth-IsNext h x (sorted keys) (has-sorted x keys ∙ x_in) (sorted-IsSorted keys) in
    (
      l,
      found,
      IsNext-fewer h (sorted keys) keys l (λ j there. has-sorted j keys ∙ there)
          (sym (has-sorted l keys) ∙ next.0) next,
    )
