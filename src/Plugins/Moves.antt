-- ===== src/Plugins/Moves.antt =====
-- The node groups that a scaling moves, from what it checked of the two maps that it is given.
use mathlib.Core.Path.{subst}
use sahara.Base.{
  ℕ, ◌≡◌, sym, ap, ◌∙◌, ◌⊎◌, inl, inr, true, false, not, ◌&&◌, some, String, List, [], ◌∷◌, ok,
  Error, raise_if, raise_if-eq-ok, >>-eq-ok, arith, Bool-cases, All, str_eq, eq_iff, is_some,
}
use sahara.Base.Dict.{Dict, lookup, update, contains, lookup-update}
use sahara.Objects.{NodeGroup}
use sahara.Plugins.{get_by_id, is_scalable, check_scalable, check_additional, check_existing}
use sahara.Plugins.Counts.{Movable}
use sahara.Plugins.Deletions.{Merges}

-- The ids tell the node groups apart.
abbrev pub HasOwnIds : List NodeGroup → Type 0
HasOwnIds ngs = All (λ ng. get_by_id ng.id ngs ≡ some ng) ngs

pub All-map :
    {A : Type 0} (P Q : A → Type 0) (xs : List A) → ((x : A) → P x → Q x) → All P xs → All Q xs
All-map P Q [] f h = tt
All-map P Q (x ∷ xs) f (h, hs) = (f x h, All-map P Q xs f hs)

pub unmerged :
    (id : String) (existing additional : Dict ℕ)
    → contains id additional ≡ false
    → lookup id (update existing additional) ≡ lookup id existing
unmerged id existing additional out = lookup-update id existing additional out

pub All-Merges :
    (existing additional : Dict ℕ) (gs : List NodeGroup)
    → All (λ ng. contains ng.id additional ≡ true → ng.count ≡ 0) gs
    → Merges (update existing additional) existing gs
All-Merges existing additional gs fresh =
    All-map (λ ng. contains ng.id additional ≡ true → ng.count ≡ 0)
      (λ ng. (lookup ng.id (update existing additional) ≡ lookup ng.id existing) ⊎ (ng.count ≡ 0))
      gs
      (λ ng h. elim (Bool-cases (contains ng.id additional)) [
        | inl there ↦ inr (h there)
        | inr out ↦ inl (unmerged ng.id existing additional out)
      ])
      fresh

-- The node groups of both maps are scalable when those of each are.
pub update-Movable :
    (scalable : List String) (existing additional : Dict ℕ) (gs : List NodeGroup)
    → Movable scalable additional gs
    → Movable scalable existing gs
    → Movable scalable (update existing additional) gs
update-Movable scalable existing additional [] added movable = tt
update-Movable scalable existing additional (ng ∷ gs) (h, hs) (k, ks) = (
  (λ there. elim (Bool-cases (contains ng.id additional)) [
    | inl new ↦ h new
    | inr out ↦ k (ap is_some (sym (unmerged ng.id existing additional out)) ∙ there)
  ]),
  update-Movable scalable existing additional gs hs ks,
)

check_additional-at :
    (scalable : List String) (ngs : List NodeGroup) (additional : Dict ℕ) (id : String)
    → check_additional scalable ngs additional ≡ ok tt
    → contains id additional ≡ true
    → check_scalable scalable (get_by_id id ngs) ≡ ok tt
unfolding check_additional
check_additional-at scalable ngs [] id h there = absurd (cc there)
check_additional-at scalable ngs ((j, n) ∷ additional) id h there =
    let (first, rest) = >>-eq-ok (check_scalable scalable (get_by_id j ngs)) _ h in
    elim (Bool-cases (str_eq j id)) [
      | inl same ↦
          subst (λ k. check_scalable scalable (get_by_id k ngs) ≡ ok tt) ((eq_iff j id).0 same)
            first
      | inr other ↦ check_additional-at scalable ngs additional id rest (rw other at there)
    ]

-- The node groups of the map of new ones are scalable.
pub check_additional-Movable :
    (scalable : List String) (ngs : List NodeGroup) (additional : Dict ℕ)
    → HasOwnIds ngs
    → check_additional scalable ngs additional ≡ ok tt
    → Movable scalable additional ngs
check_additional-Movable scalable ngs additional own h =
    All-map (λ ng. get_by_id ng.id ngs ≡ some ng)
      (λ ng. contains ng.id additional ≡ true → is_scalable scalable ng ≡ true) ngs
      (λ ng e there.
        passed ng
          (rw (e, check_scalable) at (check_additional-at scalable ngs additional ng.id h there)))
      own
  where
    passed :
        (ng : NodeGroup)
        → raise_if (not (is_scalable scalable ng)) Error.node_group_cannot_be_scaled ≡ ok tt
        → is_scalable scalable ng ≡ true
    passed ng h =
        ground (
          arith,
          raise_if-eq-ok (not (is_scalable scalable ng)) Error.node_group_cannot_be_scaled h,
        )

-- So are the node groups of the map of existing ones.
pub check_existing-Movable :
    (scalable : List String) (existing : Dict ℕ) (ngs : List NodeGroup)
    → check_existing scalable existing ngs ≡ ok tt
    → Movable scalable existing ngs
unfolding check_existing
check_existing-Movable scalable existing [] h = tt
check_existing-Movable scalable existing (ng ∷ ngs) h =
    let (first, rest) =
      >>-eq-ok
        (raise_if (contains ng.id existing && not (is_scalable scalable ng))
          Error.node_group_cannot_be_scaled)
        _ h in
    (
      (λ there. ground (
        arith,
        there,
        raise_if-eq-ok (contains ng.id existing && not (is_scalable scalable ng))
            Error.node_group_cannot_be_scaled first,
      )),
      check_existing-Movable scalable existing ngs rest,
    )
