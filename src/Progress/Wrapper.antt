-- ===== src/Progress/Wrapper.antt =====
-- The event log does not get in the way of what it logs.
use mathlib.Core.Path.{subst}
use sahara.Base.{
  ℕ, ◌≡◌, refl, sym, ap, ◌∙◌, Bool, true, false, not, ◌||◌, Option, none, some, String, inl, inr,
  Result, ok, err, Error, if◌then◌else◌, Bool-cases, is_some,
}
use sahara.Objects.{Event, Step}
use sahara.Progress.{
  Log, find_step, event_added, write_step, cluster_event_add, get_current_provisioning_step,
  then_do, add_to, add_fail_event, open_step, mark, event_wrapper,
}
use sahara.Progress.Steps.{write_step-steps, change_step-same}
use sahara.Progress.Table.{status_of}
use sahara.Progress.Recorded.{is_recorded, Recorded, open_step-Fine, mark-outcome}

-- The log in which the wrapped function runs.
abbrev pub opened : Bool → String → Option String → Log → Log
opened disable_event_log cluster_id step log =
    if disable_event_log || not (log.exists cluster_id)
    then log
    else (open_step disable_event_log cluster_id step log).1

opened_there :
    (step : Option String) (cluster_id : String) (log : Log)
    → log.exists cluster_id ≡ true
    → opened false cluster_id step log ≡ (open_step false cluster_id step log).1
opened_there step cluster_id log there = rw there refl

opened-Recorded :
    (step : Option String) (cluster_id : String) (log : Log)
    → Recorded cluster_id log
    → log.exists cluster_id ≡ true
    → Recorded cluster_id (opened false cluster_id step log)
opened-Recorded step cluster_id log recorded there =
    let (a, e, recorded₁) = open_step-Fine cluster_id step log recorded in
    subst (Recorded cluster_id) (sym (opened_there step cluster_id log there)) recorded₁

then_do-ok :
    {A B : Type 0} (p : Result A × Log) (f : A → Log → Result B × Log) (a : A)
    → p.0 ≡ ok a
    → then_do p f ≡ f a p.1
then_do-ok p f a e = rw e refl

event_wrapper-mark :
    {A : Type 0} (m : Bool) (step : Option String) (cluster_id : String) (name : Option String)
    (func : Log → Result A × Log) (log : Log)
    → Recorded cluster_id log
    → log.exists cluster_id ≡ true
    → event_wrapper false m step cluster_id name func log
      ≡ mark false m cluster_id name
          (func (opened false cluster_id step log)).0
          (func (opened false cluster_id step log)).1
unfolding event_wrapper
event_wrapper-mark {A} m step cluster_id name func log recorded there =
    let (a, e, recorded₁) = open_step-Fine cluster_id step log recorded in
    ap
      (λ b.
        if not b then func log else then_do {B = A} (open_step false cluster_id step log) marked)
      there
    ∙ then_do-ok {B = A} (open_step false cluster_id step log) marked a e
    ∙ ap (λ l. marked a l) (sym (opened_there step cluster_id log there))
  where
    marked : Option ℕ → Log → Result A × Log
    marked a l = mark false m cluster_id name (func l).0 (func l).1

-- Logging does not change what comes of a call: the wrapper ends as the function does in the log
-- that it runs in, and the thread's step stays in the table, provided it was there and the function
-- keeps it there.
pub event_wrapper-outcome :
    {A : Type 0} (disable_event_log m : Bool) (step : Option String) (cluster_id : String)
    (name : Option String) (func : Log → Result A × Log) (log : Log)
    → ((l : Log) → Recorded cluster_id l → Recorded cluster_id (func l).1)
    → Recorded cluster_id log
    → ((event_wrapper disable_event_log m step cluster_id name func log).0
        ≡ (func (opened disable_event_log cluster_id step log)).0)
      × Recorded cluster_id (event_wrapper disable_event_log m step cluster_id name func log).1
unfolding event_wrapper
event_wrapper-outcome true m step cluster_id name func log keeps recorded =
    (refl, keeps log recorded)
event_wrapper-outcome false m step cluster_id name func log keeps recorded =
    elim (Bool-cases (log.exists cluster_id)) [
      | inr missing ↦ rw (missing, event_wrapper) (refl, keeps log recorded)
      | inl there ↦ rw (event_wrapper-mark m step cluster_id name func log recorded there) (
          mark-outcome m cluster_id name (func (opened false cluster_id step log)).0
            (func (opened false cluster_id step log)).1
            (keeps (opened false cluster_id step log)
              (opened-Recorded step cluster_id log recorded there)))
    ]

then_log :
    {A B : Type 0} (p : Result A × Log) (r : Result B)
    → (then_do p (λ done log₁. (r, log₁))).1 ≡ p.1
then_log (ok a, l) r = refl
then_log (err e, l) r = refl

current_there :
    (cluster_id : String) (log : Log)
    → log.exists cluster_id ≡ true
    → get_current_provisioning_step false cluster_id log ≡ log.current
unfolding get_current_provisioning_step
current_there cluster_id log there = rw (there, get_current_provisioning_step) refl

event_marked :
    (id : ℕ) (e : Event) (log : Log)
    → e.successful ≡ false
    → is_some (find_step id log.steps) ≡ true
    → status_of (find_step id (add_to (some id) e log).1.steps) ≡ some (some false)
unfolding cluster_event_add
event_marked id e log bad there = go (find_step id log.steps) refl
  where
    go :
        (o : Option Step)
        → find_step id log.steps ≡ o
        → status_of (find_step id (write_step id (event_added e) log).1.steps) ≡ some (some false)
    go none q = absurd (cc (q, there))
    go (some s) q =
        ap (λ steps. status_of (find_step id steps)) (write_step-steps id (event_added e) log)
        ∙ ap status_of (change_step-same id (event_added e) log.steps s (λ t. refl) q)
        ∙ ap (λ b. some (if b then s.successful else some false)) bad

failure_marked :
    (A : Type 0) (m : Bool) (cluster_id : String) (name : Option String) (e : Error) (id : ℕ)
    (log : Log)
    → log.exists cluster_id ≡ true
    → log.current ≡ some id
    → is_recorded log.current log.steps ≡ true
    → status_of (find_step id (mark {A = A} false m cluster_id name (err e) log).1.steps)
      ≡ some (some false)
unfolding add_fail_event
failure_marked A m cluster_id name e id log still here recorded =
    let failure : Event = record {
      successful = false;
      instance_name = name;
      event_info = some e;
    } in
    ap (λ l. status_of (find_step id l.steps))
      (then_log (add_to (get_current_provisioning_step false cluster_id log) failure log) (err e))
    ∙ ap (λ cur. status_of (find_step id (add_to cur failure log).1.steps))
        (current_there cluster_id log still ∙ here)
    ∙ event_marked id failure log refl
        (subst (λ cur. is_recorded cur log.steps ≡ true) here recorded)

-- Where a wrapped function fails, with its cluster still there, the thread's step is failed,
-- provided it was in the table and the function keeps it there.
pub event_wrapper-failed :
    {A : Type 0} (m : Bool) (step : Option String) (cluster_id : String) (name : Option String)
    (func : Log → Result A × Log) (log : Log) (e : Error) (id : ℕ)
    → ((l : Log) → Recorded cluster_id l → Recorded cluster_id (func l).1)
    → Recorded cluster_id log
    → log.exists cluster_id ≡ true
    → (func (opened false cluster_id step log)).0 ≡ err e
    → (func (opened false cluster_id step log)).1.exists cluster_id ≡ true
    → (func (opened false cluster_id step log)).1.current ≡ some id
    → status_of (find_step id (event_wrapper false m step cluster_id name func log).1.steps)
      ≡ some (some false)
event_wrapper-failed {A} m step cluster_id name func log e id keeps recorded there fails still
      here =
    let l = opened false cluster_id step log in
    ap (λ p. status_of (find_step id p.1.steps))
      (event_wrapper-mark m step cluster_id name func log recorded there)
    ∙ ap (λ r. status_of (find_step id (mark false m cluster_id name r (func l).1).1.steps)) fails
    ∙ failure_marked A m cluster_id name e id (func l).1 still here
        (keeps l (opened-Recorded step cluster_id log recorded there) still)
