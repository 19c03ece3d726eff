-- ===== src/Controller/Reconcile/Quiet.antt =====
-- The handlers of the phases, but that of InProgress, keep every relation that reading, writing to
-- the status and their own changes of the phase keep.
use virt_advisor_operator.Base.{String, List, [], ◌∷◌}
use virt_advisor_operator.Api.{Item, Impact, Status, PlanPhase, action_eq, Config}
use virt_advisor_operator.Kube.{Env, State}
use virt_advisor_operator.Kube.Effects.{Follows, Follows-bind, Follows-unless_error, Follows-if_nil}
use virt_advisor_operator.Controller.Steps.{Quiet, Moves, Freshens}
use virt_advisor_operator.Discovery.{Prerequisite}
use virt_advisor_operator.Profiles.{Registry, Profile}
use virt_advisor_operator.Controller.Completed.{
  completed_input_stage, completed_current_stage, upgraded_items, handle_completed_phase,
}
use virt_advisor_operator.Controller.Drafting.{
  set_impact, impact_level, ensure_impact_level, store_plan, generate, after_prerequisites,
  handle_drafting_phase,
}
use virt_advisor_operator.Controller.Review.{
  acknowledgment, resolved, approval, reviewed, handle_review_required_phase,
}
use virt_advisor_operator.Controller.Upgrade.{
  generate_plan_items_with_new_logic, aligned, handle_completed_with_upgrade_phase,
}
use virt_advisor_operator.Controller.Reconcile.{
  handle_ignore, after_missing, handle_prerequisite_failed,
}
use virt_advisor_operator.Controller.Quiet.{effect_rules}
use virt_advisor_operator.Controller.Quiet.Inputs.{
  Follows-generate_plan_items, Follows-hco_changed, Follows-with_profile, QuietProfile,
  QuietRegistry, get_profile-Quiet,
}
use virt_advisor_operator.Controller.Quiet.Stages.{
  Follows-completed_health_stage, Follows-propose, Follows-refuse, Follows-settle,
}

module _ {R : State → State → Type 0} (quiet : Quiet R) (env : Env) (registry : Registry)
    (profiles : QuietRegistry registry) where
  pub Follows-with_new_logic : Follows R (generate_plan_items_with_new_logic env registry)
  unfolding generate_plan_items_with_new_logic
  Follows-with_new_logic = Follows-bind quiet.order _ _ (search effect_rules) λ spec.
      Follows-with_profile _ _ _ (get_profile-Quiet env registry spec.profile profiles)
        (λ e. search effect_rules)
        (λ p q.
          Follows-unless_error quiet.order _ _ _ (Follows-generate_plan_items quiet p q _)
            (λ e. search effect_rules) (λ items. search effect_rules))

  Follows-aligned : Moves R PlanPhase.completed → Follows R (aligned env registry)
  unfolding aligned
  Follows-aligned a = search effect_rules depth 12

  pub Follows-handle_completed_with_upgrade :
      Moves R PlanPhase.pending
      → Moves R PlanPhase.completed
      → Follows R (handle_completed_with_upgrade_phase env registry)
  unfolding handle_completed_with_upgrade_phase
  Follows-handle_completed_with_upgrade a b =
      search (effect_rules, Follows-with_new_logic, Follows-aligned) depth 24

  Follows-completed_input_stage :
      Freshens R
      → Moves R PlanPhase.drafting
      → Moves R PlanPhase.in_progress
      → Moves R PlanPhase.drifted
      → Follows R (completed_input_stage env registry)
  unfolding completed_input_stage
  Follows-completed_input_stage fresh a b c =
      search (effect_rules, Follows-hco_changed, Follows-completed_health_stage) depth 24

  Follows-completed_current_stage :
      Freshens R
      → Moves R PlanPhase.drafting
      → Moves R PlanPhase.in_progress
      → Moves R PlanPhase.drifted
      → Follows R (completed_current_stage env registry)
  unfolding completed_current_stage
  Follows-completed_current_stage fresh a b c =
      search (effect_rules, Follows-completed_input_stage) depth 24

  Follows-upgraded_items :
      Moves R PlanPhase.completed_with_upgrade
      → (status : Status) (items : List Item) → Follows R (upgraded_items env registry status items)
  unfolding upgraded_items
  Follows-upgraded_items a status items = search effect_rules depth 24

  pub Follows-handle_completed_phase :
      Freshens R
      → Moves R PlanPhase.drafting
      → Moves R PlanPhase.in_progress
      → Moves R PlanPhase.drifted
      → Moves R PlanPhase.completed_with_upgrade
      → Follows R (handle_completed_phase env registry)
  unfolding handle_completed_phase
  Follows-handle_completed_phase fresh a b c d =
      search
        (
          effect_rules, Follows-with_new_logic, Follows-completed_current_stage,
          Follows-upgraded_items,
        )
        depth 24

  Follows-set_impact : (impact : Impact) → Follows R (set_impact env impact)
  unfolding set_impact
  Follows-set_impact impact = search effect_rules depth 12

  Follows-impact_level : (items : List Item) → Follows R (impact_level env registry items)
  unfolding impact_level
  Follows-impact_level [] = search (effect_rules, Follows-set_impact) depth 12
  Follows-impact_level (item ∷ items) = search (effect_rules, Follows-set_impact) depth 12

  pub Follows-ensure_impact_level : Follows R (ensure_impact_level env registry)
  unfolding ensure_impact_level
  Follows-ensure_impact_level = search (effect_rules, Follows-impact_level) depth 12

  Follows-store_plan :
      Moves R PlanPhase.completed
      → Moves R PlanPhase.in_progress
      → Moves R PlanPhase.review_required
      → (items : List Item) (hash : String) → Follows R (store_plan env registry items hash)
  unfolding store_plan
  Follows-store_plan a b c items hash =
      search (effect_rules, Follows-ensure_impact_level, Follows-settle, Follows-propose) depth 24

  Follows-generate :
      Moves R PlanPhase.completed
      → Moves R PlanPhase.in_progress
      → Moves R PlanPhase.review_required
      → Moves R PlanPhase.prerequisite_failed
      → Moves R PlanPhase.failed
      → (p : Profile) → QuietProfile p
      → Follows R (generate env registry p)
  unfolding generate
  Follows-generate a b c d e p q =
      search (effect_rules, Follows-generate_plan_items, Follows-store_plan) depth 24

  Follows-after_prerequisites :
      Moves R PlanPhase.completed
      → Moves R PlanPhase.in_progress
      → Moves R PlanPhase.review_required
      → Moves R PlanPhase.prerequisite_failed
      → Moves R PlanPhase.failed
      → (p : Profile) → QuietProfile p
      → (missing : List Prerequisite) → Follows R (after_prerequisites env registry p missing)
  unfolding after_prerequisites
  Follows-after_prerequisites a b c d e p q [] =
      Follows-bind quiet.order _ _ (search effect_rules) λ spec.
        Follows-if_nil _ _ _ (Follows-generate a b c d e p q) (λ _. Follows-refuse quiet env d _)
  Follows-after_prerequisites a b c d e p q (m ∷ ms) = search effect_rules depth 24

  pub Follows-handle_drafting_phase :
      Moves R PlanPhase.completed
      → Moves R PlanPhase.in_progress
      → Moves R PlanPhase.review_required
      → Moves R PlanPhase.prerequisite_failed
      → Moves R PlanPhase.failed
      → Follows R (handle_drafting_phase env registry)
  unfolding handle_drafting_phase
  Follows-handle_drafting_phase a b c d e =
      Follows-bind quiet.order _ _ (search effect_rules) λ name.
        Follows-with_profile _ _ _ (get_profile-Quiet env registry name profiles)
          (λ e. search effect_rules depth 12)
          (λ p q. search (effect_rules, Follows-after_prerequisites a b c d e p q) depth 24)

  Follows-acknowledgment :
      Moves R PlanPhase.in_progress → (plan : Config) → Follows R (acknowledgment env plan)
  unfolding acknowledgment approval
  Follows-acknowledgment a plan = search effect_rules depth 24

  pub Follows-handle_review_required :
      Moves R PlanPhase.in_progress
      → Moves R PlanPhase.pending
      → Follows R (handle_review_required_phase env registry)
  unfolding handle_review_required_phase reviewed approval resolved
  Follows-handle_review_required a b =
      search (effect_rules, Follows-acknowledgment, Follows-hco_changed) depth 24

  Follows-after_missing :
      Moves R PlanPhase.pending
      → Moves R PlanPhase.prerequisite_failed
      → (ms : List Prerequisite) → Follows R (after_missing env registry ms)
  unfolding after_missing
  Follows-after_missing a b [] = search effect_rules depth 12
  Follows-after_missing a b (m ∷ ms) = search effect_rules depth 12

  pub Follows-prerequisite_failed :
      Moves R PlanPhase.pending
      → Moves R PlanPhase.prerequisite_failed
      → (plan : Config) → Follows R (handle_prerequisite_failed env registry plan)
  unfolding handle_prerequisite_failed
  Follows-prerequisite_failed a b plan = search (effect_rules, Follows-after_missing) depth 24

  pub Follows-handle_ignore :
      Moves R PlanPhase.ignored → (plan : Config) → Follows R (handle_ignore env registry plan)
  unfolding handle_ignore
  Follows-handle_ignore a plan = search (effect_rules, Follows-ensure_impact_level) depth 24
