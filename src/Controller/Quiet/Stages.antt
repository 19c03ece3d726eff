-- ===== src/Controller/Quiet/Stages.antt =====
-- internal/controller/virtplatformconfig_phases.go: what the stages of the handlers that need no
-- profile keep.
use virt_advisor_operator.Base.{ℕ, String, Bool, List, [], ◌∷◌}
use virt_advisor_operator.Api.{PlanPhase}
use virt_advisor_operator.Kube.{Env, State}
use virt_advisor_operator.Kube.Effects.{Follows, Follows-bind}
use virt_advisor_operator.Controller.Steps.{Quiet, Moves, Freshens}
use virt_advisor_operator.Controller.Completed.{
  monitor_item, monitor_items, ensure_completed_phase_conditions, completed_drift_stage,
  completed_health_stage,
}
use virt_advisor_operator.Controller.Drafting.{settle_item, settle_items, settle, propose, refuse}
use virt_advisor_operator.Controller.Drifted.{handle_drifted_phase}
use virt_advisor_operator.Controller.Quiet.{Follows-update_phase, Follows-freshen, effect_rules}

module _ {R : State → State → Type 0} (quiet : Quiet R) (env : Env) (i : ℕ) where
  pub Follows-monitor_item : Follows R (monitor_item env i)
  unfolding monitor_item
  Follows-monitor_item = search effect_rules depth 12

  pub Follows-settle_item : Follows R (settle_item env i)
  unfolding settle_item
  Follows-settle_item = search effect_rules depth 16

module _ {R : State → State → Type 0} (quiet : Quiet R) (env : Env) where
  pub Follows-monitor_items :
      (rounds : List ℕ) (requeue : Bool) → Follows R (monitor_items env rounds requeue)
  unfolding monitor_items
  Follows-monitor_items [] requeue = search effect_rules
  Follows-monitor_items (i ∷ rest) requeue =
      Follows-bind quiet.order _ _ (Follows-monitor_item quiet env i)
        (λ unhealthy. Follows-monitor_items rest _)

  pub Follows-settle_items :
      (rounds : List ℕ) (all_healthy : Bool) → Follows R (settle_items env rounds all_healthy)
  unfolding settle_items
  Follows-settle_items [] all_healthy = search effect_rules
  Follows-settle_items (i ∷ rest) all_healthy =
      Follows-bind quiet.order _ _ (Follows-settle_item quiet env i)
        (λ healthy. Follows-settle_items rest _)

  pub Follows-ensure_completed : Freshens R → Follows R (ensure_completed_phase_conditions env)
  unfolding ensure_completed_phase_conditions
  Follows-ensure_completed fresh = Follows-bind quiet.order _ _ (search effect_rules) λ t.
      Follows-bind quiet.order _ _ (search effect_rules) λ conditions.
        Follows-bind quiet.order _ _ (Follows-freshen quiet fresh t) (λ _. search effect_rules)

  pub Follows-completed_drift_stage :
      Freshens R → Moves R PlanPhase.drifted → Follows R (completed_drift_stage env)
  unfolding completed_drift_stage
  Follows-completed_drift_stage fresh a = search (effect_rules, Follows-ensure_completed) depth 24

  pub Follows-completed_health_stage :
      Freshens R
      → Moves R PlanPhase.in_progress
      → Moves R PlanPhase.drifted
      → Follows R (completed_health_stage env)
  unfolding completed_health_stage
  Follows-completed_health_stage fresh a b =
      search (effect_rules, Follows-monitor_items, Follows-completed_drift_stage) depth 24

  pub Follows-settle :
      Moves R PlanPhase.completed → Moves R PlanPhase.in_progress → Follows R (settle env)
  unfolding settle
  Follows-settle a b = search (effect_rules, Follows-settle_items) depth 24

  pub Follows-propose :
      Moves R PlanPhase.review_required → Moves R PlanPhase.in_progress → Follows R (propose env)
  unfolding propose
  Follows-propose a b = search effect_rules depth 12

  pub Follows-refuse :
      Moves R PlanPhase.prerequisite_failed → (message : String) → Follows R (refuse env message)
  unfolding refuse
  Follows-refuse a message = Follows-update_phase quiet env _ _ a

  pub Follows-handle_drifted_phase :
      Moves R PlanPhase.completed
      → Moves R PlanPhase.in_progress
      → Follows R (handle_drifted_phase env)
  unfolding handle_drifted_phase
  Follows-handle_drifted_phase a b = search effect_rules depth 24
