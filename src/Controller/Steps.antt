-- ===== src/Controller/Steps.antt =====
-- How the reconciler writes to the status: by updatePhase, by a mark of a condition that no phase
-- owns, by ensureCompletedPhaseConditions, or to other fields; and the relations between states that
-- such writes keep.
use virt_advisor_operator.Base.{ℕ, String, Bool, true, List, ◌≡◌, refl, ◌==◌, ◌||◌, string_eq, map}
use virt_advisor_operator.Api.{Status, PlanPhase, ConditionStatus, Condition}
use virt_advisor_operator.Kube.{State}
use virt_advisor_operator.Kube.Effects.{IsPreorder}
use virt_advisor_operator.Kube.Applied.{Reading, Reads}
use virt_advisor_operator.Conditions.{set_condition, phase_conditions}
use virt_advisor_operator.Conditions.Texts
use virt_advisor_operator.Controller.Completed.{freshen}

abbrev pub with_status : State → Status → State
with_status s status = record s { plan = record s.plan { status = status } }

abbrev pub with_conditions : State → List Condition → State
with_conditions s conditions = with_status s (record s.plan.status { conditions = conditions })

-- What updatePhase writes at a time.
abbrev pub moved : State → PlanPhase → ℕ → String → State
moved s phase t message = with_status s (record s.plan.status {
  phase = phase;
  observed_generation = s.plan.generation;
  conditions = phase_conditions t phase message s.plan.status.conditions;
})

-- The types of conditions that are set outside of updatePhase.
abbrev pub is_marker : String → Bool
is_marker type = type == Texts.input_drift || type == Texts.upgrade

-- A relation that reading keeps, and writing to the status without a new phase.
pub record Quiet (R : State → State → Type 0) : Type 0 where
  pub order : IsPreorder R
  pub reading : (s t : State) → Reads s t → R s t
  pub writing :
      (s : State) (status : Status)
      → status.phase ≡ s.plan.status.phase
      → status.observed_generation ≡ s.plan.status.observed_generation
      → status.conditions ≡ s.plan.status.conditions
      → R s (with_status s status)
  pub marking :
      (s : State) (t : ℕ) (type : String) (status : ConditionStatus) (reason message : String)
      → is_marker type ≡ true
      → R s
          (with_conditions s (set_condition t type status reason message s.plan.status.conditions))

pub Quiet-Reading : {R : State → State → Type 0} → Quiet R → Reading R
Quiet-Reading quiet = record { order = quiet.order; reading = quiet.reading }

-- A relation that every write to the status without a new phase keeps.
pub Quiet-writes :
    {R : State → State → Type 0}
    → Reading R
    → ((s : State) (status : Status)
        → status.phase ≡ s.plan.status.phase
        → R s (with_status s status))
    → Quiet R
Quiet-writes base writes = record {
  order = base.order;
  reading = base.reading;
  writing = λ s status e f g. writes s status e;
  marking = λ s t type status reason message e. writes s _ refl;
}

-- A relation that a move to the phase keeps.
abbrev pub Moves : (State → State → Type 0) → PlanPhase → Type 0
Moves R p = (s : State) (t : ℕ) (message : String) → R s (moved s p t message)

-- A relation that ensureCompletedPhaseConditions keeps.
abbrev pub Freshens : (State → State → Type 0) → Type 0
Freshens R =
    (s : State) (t : ℕ) → R s (with_conditions s (map (freshen t) s.plan.status.conditions))
