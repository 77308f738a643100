-- ===== src/Progress/History.antt =====
-- The outcome of a step as a function of what has happened to it.
use mathlib.Core.Path.{subst}
use sahara.Base.{
  ℕ, suc, ◌≡◌, refl, sym, ap, ◌∙◌, Bool, true, false, not, ◌||◌, Option, none, some, List, [], ◌∷◌,
  inl, inr, if◌then◌else◌, ◌==◌, length, length-append, arith, Bool-cases,
}
use sahara.Objects.{Event, Step}
use sahara.Conductor.{step_update}
use sahara.Progress.{event_added}

-- What happens to a step: an event, or a look at whether all its events are in.
pub data Call : Type 0 where
  event : Event → Call
  checked : Call

abbrev pub apply : Call → Step → Step
apply (event e) s = event_added e s
apply checked s = step_update s

abbrev pub run : List Call → Step → Step
run [] s = s
run (c ∷ cs) s = run cs (apply c s)

abbrev pub any_failed : List Call → Bool
any_failed [] = false
any_failed (event e ∷ cs) = not e.successful || any_failed cs
any_failed (checked ∷ cs) = any_failed cs

-- Some look comes after exactly `total` events, where `n` came before.
abbrev pub completes : ℕ → ℕ → List Call → Bool
completes total n [] = false
completes total n (event e ∷ cs) = completes total (suc n) cs
completes total n (checked ∷ cs) = n == total || completes total n cs

-- Failed as soon as there was a failure, else successful once all events were seen to be in.
abbrev pub outcome : ℕ → ℕ → List Call → Option Bool
outcome total n cs =
    if any_failed cs then some false else if completes total n cs then some true else none

fine_event :
    (e : Event) (s : Step) → e.successful ≡ true → (event_added e s).successful ≡ s.successful
fine_event e s fine = rw fine refl

bad_event :
    (e : Event) (s : Step) → e.successful ≡ false → (event_added e s).successful ≡ some false
bad_event e s bad = rw bad refl

run_failed :
    (cs : List Call) (s : Step) → s.successful ≡ some false → (run cs s).successful ≡ some false
unfolding step_update
run_failed [] s h = h
run_failed (event e ∷ cs) s h = run_failed cs (event_added e s) (ground (arith, h))
run_failed (checked ∷ cs) s h = run_failed cs (step_update s) (rw (h, step_update) h)

run_done :
    (cs : List Call) (s : Step)
    → s.successful ≡ some true
    → (run cs s).successful ≡ (if any_failed cs then some false else some true)
unfolding step_update
run_done [] s h = h
run_done (event e ∷ cs) s h = elim (Bool-cases e.successful) [
  | inl fine ↦
      run_done cs (event_added e s) (fine_event e s fine ∙ h)
      ∙ ap (λ b. if not b || any_failed cs then some false else some true) (sym fine)
  | inr bad ↦
      run_failed cs (event_added e s) (bad_event e s bad)
      ∙ ap (λ b. if not b || any_failed cs then some false else some true) (sym bad)
]
run_done (checked ∷ cs) s h = run_done cs (step_update s) (rw (h, step_update) h)

step_update_idle :
    (s : Step) → s.successful ≡ none → (length s.events == s.total) ≡ false → step_update s ≡ s
unfolding step_update
step_update_idle s h other =
    subst
      (λ o.
        elim o [
          | some b ↦ s
          | none ↦
              if length s.events == s.total
              then record s { events = []; successful = some true }
              else s
        ]
        ≡ s)
      (sym h) (rw other refl)

pub run-outcome :
    (cs : List Call) (s : Step)
    → s.successful ≡ none
    → (run cs s).successful ≡ outcome s.total (length s.events) cs
unfolding step_update
run-outcome [] s h = h
run-outcome (event e ∷ cs) s h = elim (Bool-cases e.successful) [
  | inl fine ↦
      run-outcome cs (event_added e s) (fine_event e s fine ∙ h)
      ∙ ap (λ n. outcome s.total n cs) (omega (arith, length-append s.events (e ∷ [])))
      ∙ ap
          (λ b.
            if not b || any_failed cs
            then some false
            else (if completes s.total (suc (length s.events)) cs then some true else none))
          (sym fine)
  | inr bad ↦
      run_failed cs (event_added e s) (bad_event e s bad)
      ∙ ap
          (λ b.
            if not b || any_failed cs
            then some false
            else (if completes s.total (suc (length s.events)) cs then some true else none))
          (sym bad)
]
run-outcome (checked ∷ cs) s h = elim (Bool-cases (length s.events == s.total)) [
  | inl full ↦
      run_done cs (step_update s) (rw (h, step_update, full) refl) ∙ ap (looked s cs) (sym full)
  | inr other ↦
      ap (λ t. (run cs t).successful) (step_update_idle s h other)
      ∙ run-outcome cs s h
      ∙ ap (looked s cs) (sym other)
]
  where
    looked : Step → List Call → Bool → Option Bool
    looked s cs b =
        if any_failed cs
        then some false
        else if b || completes s.total (length s.events) cs
        then some true
        else none
