-- ===== src/Progress/Steps.antt =====
-- Finding a step in the table after a write to it.
use native.Mathlib.Decide.{ℕ_discrete}
use sahara.Base.{ℕ, ◌≡◌, refl, sym, ap, ◌∙◌, Bool, Option, none, some, List, [], ◌∷◌, ◌++◌, arith}
use sahara.Objects.{Step}
use sahara.Conductor.{step_update}
use sahara.Progress.{Log, find_step, change_step, write_step}

some_injective : {A : Type 0} {x y : A} → some x ≡ some y → x ≡ y
some_injective h = cc h

found_first :
    (id : ℕ) (s : Step) (steps : List Step) → s.id ≡ id → find_step id (s ∷ steps) ≡ some s
found_first id s steps e = ground arith

found_later :
    (id : ℕ) (s : Step) (steps : List Step)
    → (s.id ≡ id → ⊥)
    → find_step id (s ∷ steps) ≡ find_step id steps
found_later id s steps e = ground arith

change_first :
    (id : ℕ) (change : Step → Step) (s : Step) (steps : List Step)
    → s.id ≡ id
    → change_step id change (s ∷ steps) ≡ change s ∷ steps
change_first id change s steps e = ground arith

change_later :
    (id : ℕ) (change : Step → Step) (s : Step) (steps : List Step)
    → (s.id ≡ id → ⊥)
    → change_step id change (s ∷ steps) ≡ s ∷ change_step id change steps
change_later id change s steps e = ground arith

pub change_step-same :
    (id : ℕ) (change : Step → Step) (steps : List Step) (s : Step)
    → ((t : Step) → (change t).id ≡ t.id)
    → find_step id steps ≡ some s
    → find_step id (change_step id change steps) ≡ some (change s)
change_step-same id change [] s keeps h = absurd (cc h)
change_step-same id change (t ∷ steps) s keeps h = elim (ℕ_discrete t.id id) [
  | yes same ↦
      ap (find_step id) (change_first id change t steps same)
      ∙ found_first id (change t) steps (keeps t ∙ same)
      ∙ ap (λ u. some (change u)) (some_injective (sym (found_first id t steps same) ∙ h))
  | no other ↦
      ap (find_step id) (change_later id change t steps other)
      ∙ found_later id t (change_step id change steps) other
      ∙ change_step-same id change steps s keeps (sym (found_later id t steps other) ∙ h)
]

pub change_step-other :
    (id j : ℕ) (change : Step → Step) (steps : List Step)
    → ((t : Step) → (change t).id ≡ t.id)
    → (j ≡ id → ⊥)
    → find_step id (change_step j change steps) ≡ find_step id steps
change_step-other id j change [] keeps h = refl
change_step-other id j change (t ∷ steps) keeps h = elim (ℕ_discrete t.id j) [
  | yes mine ↦
      ap (find_step id) (change_first j change t steps mine)
      ∙ found_later id (change t) steps (λ e. h (sym mine ∙ sym (keeps t) ∙ e))
      ∙ sym (found_later id t steps (λ e. h (sym mine ∙ e)))
  | no other ↦ ap (find_step id) (change_later j change t steps other) ∙ elim (ℕ_discrete t.id id) [
    | yes here ↦
        found_first id t (change_step j change steps) here ∙ sym (found_first id t steps here)
    | no not_here ↦
        found_later id t (change_step j change steps) not_here
        ∙ change_step-other id j change steps keeps h
        ∙ sym (found_later id t steps not_here)
  ]
]

change_step_missing :
    (id : ℕ) (change : Step → Step) (steps : List Step)
    → find_step id steps ≡ none
    → change_step id change steps ≡ steps
change_step_missing id change [] h = refl
change_step_missing id change (t ∷ steps) h = elim (ℕ_discrete t.id id) [
  | yes here ↦ absurd (cc (found_first id t steps here, h))
  | no other ↦
      change_later id change t steps other
      ∙ ap (λ rest. t ∷ rest)
          (change_step_missing id change steps (sym (found_later id t steps other) ∙ h))
]

-- A write changes the table at its id, and nothing where there is no such step.
pub write_step-steps :
    (id : ℕ) (change : Step → Step) (log : Log)
    → (write_step id change log).1.steps ≡ change_step id change log.steps
write_step-steps id change log = go (find_step id log.steps) refl
  where
    go :
        (o : Option Step)
        → find_step id log.steps ≡ o
        → (write_step id change log).1.steps ≡ change_step id change log.steps
    go none e = rw (e, write_step) (sym (change_step_missing id change log.steps e))
    go (some s) e = rw (e, write_step) refl

pub step_update-id : (s : Step) → (step_update s).id ≡ s.id
unfolding step_update
step_update-id s = go s.successful refl
  where
    go : (o : Option Bool) → s.successful ≡ o → (step_update s).id ≡ s.id
    go (some b) e = rw (e, step_update) refl
    go none e = rw (e, step_update) (ground arith)

pub find_step-append :
    (id : ℕ) (steps rest : List Step) (s : Step)
    → find_step id steps ≡ some s
    → find_step id (steps ++ rest) ≡ some s
find_step-append id [] rest s h = absurd (cc h)
find_step-append id (t ∷ steps) rest s h = elim (ℕ_discrete t.id id) [
  | yes here ↦ found_first id t (steps ++ rest) here ∙ sym (found_first id t steps here) ∙ h
  | no other ↦
      found_later id t (steps ++ rest) other
      ∙ find_step-append id steps rest s (sym (found_later id t steps other) ∙ h)
]
