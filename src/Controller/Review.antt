-- ===== src/Controller/Review.antt =====
-- handleReviewRequiredPhase of internal/controller/virtplatformconfig_phases.go.
pub mod Approval
use virt_advisor_operator.Base.{String, Bool, true, false, not, ◌==◌, if◌then◌else◌, nat_eq}
use virt_advisor_operator.Api.{PlanPhase, PlanAction, action_eq, is_false, Config}
use virt_advisor_operator.Kube.{Env, M, ◌>>=◌, ◌>>◌, return, reads, if_nil, update_status}
use virt_advisor_operator.Conditions.Texts
use virt_advisor_operator.Profiles.{Registry}
use virt_advisor_operator.Controller.{mark, update_phase}
use virt_advisor_operator.Controller.Items.{has_true_condition}
use virt_advisor_operator.Controller.Hco.{find_descheduler_item, hco_changed}

module _ (env : Env) where
  -- The end of the handler: the user has approved, or has not.
  unfoldable pub approval : Config → M (Unit {0})
  approval plan =
      if plan.spec.action == PlanAction.apply
      then update_phase env PlanPhase.in_progress "User approved, starting execution"
      else return tt

  -- The user must have changed the spec.
  unfoldable pub acknowledgment : Config → M (Unit {0})
  acknowledgment plan =
      if plan.status.observed_generation == plan.generation then return tt else (do
        mark env Texts.input_drift is_false "Acknowledged"
            "User acknowledged input dependency change"
        update_status env
        approval plan)

  unfoldable pub resolved : M (Unit {0})
  resolved = do
    mark env Texts.input_drift is_false "DriftResolved"
        "Input dependency drift resolved - external changes reverted"
    update_status env
    update_phase env PlanPhase.pending "Regenerating plan after drift resolution"

module _ (env : Env) (registry : Registry) where
  unfoldable pub reviewed : Config → M (Unit {0})
  reviewed plan =
      if not (has_true_condition Texts.input_drift plan.status.conditions)
      then approval env plan
      else if_nil (find_descheduler_item plan.status.items) (acknowledgment env plan) λ _. do
        r ← hco_changed env registry
        if not r.0 then resolved env else acknowledgment env plan

  unfoldable pub handle_review_required_phase : M (Unit {0})
  handle_review_required_phase = reads (λ c. c) >>= reviewed
