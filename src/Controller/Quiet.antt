-- ===== src/Controller/Quiet.antt =====
-- internal/controller: the steps of the reconciler that write to the status, check or dry-run keep
-- every relation that is `Quiet`; a change of the phase keeps one that `Moves` to it.
pub mod Inputs
pub mod Stages
pub mod Execution
use virt_advisor_operator.Base.{ℕ, String, List, [], ◌∷◌, ◌≡◌, refl, true, map}
use virt_advisor_operator.Api.{Item, Status, PlanPhase, ConditionStatus, Config}
use virt_advisor_operator.Kube.{Env, State, writes, final}
use virt_advisor_operator.Kube.Effects.{Follows, follow_rules, Follows-bind, Follows-unless_error}
use virt_advisor_operator.Kube.Applied.{Follows-now, Follows-update_status, quiet_rules}
use virt_advisor_operator.Controller.Steps.{is_marker, Quiet, Quiet-Reading, Moves, Freshens}
use virt_advisor_operator.Plan.Quiet.{quiet_plan}
use virt_advisor_operator.Profiles.Reading.{reading_rules}
use virt_advisor_operator.Controller.{
  set_status, set_item, item_at, item_indices, mark, update_phase,
}
use virt_advisor_operator.Controller.Completed.{freshen}
use virt_advisor_operator.Controller.Execution.{
  refresh_item_diff, check_item_drift, update_status_logged,
}

module _ {R : State → State → Type 0} (quiet : Quiet R) (f : Status → Status) where
  pub Follows-set_status :
      ((status : Status) → (f status).phase ≡ status.phase)
      → ((status : Status) → (f status).observed_generation ≡ status.observed_generation)
      → ((status : Status) → (f status).conditions ≡ status.conditions)
      → Follows R (set_status f)
  unfolding set_status writes final
  Follows-set_status p g c = record {
    at = λ s. quiet.writing s _ (p s.plan.status) (g s.plan.status) (c s.plan.status);
  }

module _ {R : State → State → Type 0} (quiet : Quiet R) where
  pub Follows-freshen :
      Freshens R
      → (t : ℕ)
      → Follows R (set_status (λ s. record s { conditions = map (freshen t) s.conditions }))
  unfolding set_status writes final
  Follows-freshen fresh t = record { at = λ s. fresh s t }

module _ {R : State → State → Type 0} (quiet : Quiet R) (i : ℕ) where
  pub Follows-item_at : Follows R (item_at i)
  unfolding item_at
  Follows-item_at = search (follow_rules, quiet_rules)

  pub Follows-set_item : (f : Item → Item) → Follows R (set_item i f)
  unfolding set_item
  Follows-set_item f = search (follow_rules, quiet_rules, Follows-set_status)

module _ {R : State → State → Type 0} (quiet : Quiet R) where
  pub Follows-item_indices : Follows R item_indices
  unfolding item_indices
  Follows-item_indices = search (follow_rules, quiet_rules)

pub ruleset state_rules = (
  follow_rules, Quiet-Reading, quiet_rules, Follows-set_status, Follows-item_at, Follows-set_item,
  Follows-item_indices, quiet_plan, reading_rules, refl,
)

module _ {R : State → State → Type 0} (quiet : Quiet R) (env : Env) where
  pub Follows-mark :
      (type : String) (status : ConditionStatus) (reason message : String)
      → is_marker type ≡ true
      → Follows R (mark env type status reason message)
  unfolding mark set_status writes final
  Follows-mark type status reason message e =
      Follows-bind quiet.order _ _ (Follows-now (Quiet-Reading quiet) env)
        λ t. record { at = λ s. quiet.marking s t type status reason message e }

  pub Follows-update_phase :
      (phase : PlanPhase) (message : String)
      → Moves R phase
      → Follows R (update_phase env phase message)
  unfolding update_phase writes final
  Follows-update_phase phase message moves =
      Follows-bind quiet.order _ _ (Follows-now (Quiet-Reading quiet) env) λ t.
        Follows-bind quiet.order _ _ (record { at = λ s. moves s t message })
          λ _. Follows-update_status (Quiet-Reading quiet) env

  pub Follows-update_status_logged : Follows R (update_status_logged env)
  unfolding update_status_logged
  Follows-update_status_logged = search state_rules

  pub Follows-refresh_item_diff : (i : ℕ) → Follows R (refresh_item_diff env i)
  unfolding refresh_item_diff
  Follows-refresh_item_diff i = search state_rules depth 12

  pub Follows-check_item_drift : (i : ℕ) → Follows R (check_item_drift env i)
  unfolding check_item_drift
  Follows-check_item_drift i =
      search (state_rules, Follows-refresh_item_diff, Follows-update_status_logged) depth 12

pub ruleset effect_rules = (
  state_rules, Follows-mark, Follows-update_phase, Follows-update_status_logged,
  Follows-check_item_drift,
)
