-- ===== src/Controller/Drafting.antt =====
-- handlePendingPhase and handleDraftingPhase of internal/controller/virtplatformconfig_phases.go,
-- ensureImpactLevel of virtplatformconfig_controller.go.
pub mod DryRun
use virt_advisor_operator.Base.{
  ℕ, String, Bool, true, false, not, List, [], ◌∷◌, ◌&&◌, ◌||◌, ◌==◌, ◌!=◌, if◌then◌else◌, any, ◌⊕◌,
}
use virt_advisor_operator.Api.{PlanPhase, PlanAction, action_eq, ItemState, Impact, impact_eq, Item}
use virt_advisor_operator.Kube.{
  Env, M, ◌>>=◌, ◌>>◌, return, raise, reads, lift, unless_error, if_nil, update_status,
}
use virt_advisor_operator.Conditions.Texts
use virt_advisor_operator.Discovery.{
  Prerequisite, check_prerequisites, format_missing_prerequisites,
}
use virt_advisor_operator.Plan.Hash.{compute_current_state_hash}
use virt_advisor_operator.Plan.Wait.{check_healthy}
use virt_advisor_operator.Profiles.{
  Registry, Profile, get_profile, validate_options, options_to_map,
}
use virt_advisor_operator.Controller.{item_at, item_indices, set_item, set_status, update_phase}
use virt_advisor_operator.Controller.Items.{
  aggregate_impact_from_items, is_no_change_diff, has_true_condition,
}

module _ (env : Env) where
  unfoldable pub handle_pending_phase : M (Unit {0})
  handle_pending_phase = update_phase env PlanPhase.drafting "Starting plan generation"

  unfoldable pub set_impact : Impact → M (Unit {0})
  set_impact impact = do
    old ← reads (λ c. c.status.impact_severity)
    if old != impact
        then (do set_status (λ s. record s { impact_severity = impact }); update_status env)
        else return tt

  unfoldable pub impact_level : Registry → List Item → M (Unit {0})
  impact_level registry [] = do
    profile ← reads (λ c. c.spec.profile)
    unless_error (lift (get_profile env registry profile)) (λ _. return tt)
        (λ p. set_impact p.impact_level)
  impact_level registry (item ∷ items) = set_impact (aggregate_impact_from_items (item ∷ items))

  unfoldable pub ensure_impact_level : Registry → M (Unit {0})
  ensure_impact_level registry = do items ← reads (λ c. c.status.items); impact_level registry items

  -- The body of the health loop for a plan without changes: whether the item is healthy.
  unfoldable pub settle_item : ℕ → M Bool
  settle_item i = do
    item ← item_at i
    unless_error (check_healthy env item)
        (λ e. do
          set_item i
              (λ x. record x { state = ItemState.pending; message = "Health check failed: " ⊕ e })
          return false)
        λ h.
          if h.needs_wait && not h.healthy
          then (do
            set_item i (λ x. record x { state = ItemState.in_progress; message = h.message })
            return false)
          else (do
            set_item i (λ x. record x {
              state = ItemState.completed;
              message = "Already in desired state";
            })
            return true)

  unfoldable pub settle_items : List ℕ → Bool → M Bool
  settle_items [] all_healthy = return all_healthy
  settle_items (i ∷ rest) all_healthy =
      settle_item i >>= λ healthy. settle_items rest (healthy && all_healthy)

  -- The cluster is already in the desired state.
  unfoldable pub settle : M (Unit {0})
  settle = do
    rounds ← item_indices
    all_healthy ← settle_items rounds true
    unless_error (update_status env)
        (λ e. raise ("failed to update status with health checks: " ⊕ e))
        λ _.
          if all_healthy
          then update_phase env PlanPhase.completed
              "Configuration already in desired state - no changes needed"
          else update_phase env PlanPhase.in_progress
              "Resources exist but still converging to desired state"

  -- There are changes: review, or execution.
  unfoldable pub propose : M (Unit {0})
  propose = do
    plan ← reads (λ c. c)
    if plan.spec.action == PlanAction.dry_run
          || has_true_condition Texts.input_drift plan.status.conditions
        then update_phase env PlanPhase.review_required Texts.msg_review_required
        else update_phase env PlanPhase.in_progress "Starting plan execution"

  -- The plan is stored, and its diffs decide how to go on.
  unfoldable pub store_plan : Registry → List Item → String → M (Unit {0})
  store_plan registry items hash = do
    spec ← reads (λ c. c.spec)
    set_status (λ s. record s {
      items = items;
      source_snapshot_hash = hash;
      operator_version = "v0.1.31";
      applied_options = spec.options;
    })
    unless_error (update_status env) (λ e. raise ("failed to update status with plan items: " ⊕ e))
        λ _. do
          ensure_impact_level registry
          current ← reads (λ c. c.status.items)
          if any (λ item. not (is_no_change_diff item.diff)) current then propose else settle

  unfoldable pub refuse : String → M (Unit {0})
  refuse message = update_phase env PlanPhase.prerequisite_failed message

  unfoldable pub fail_with : String → M (Unit {0})
  fail_with message = update_phase env PlanPhase.failed message

  -- From OptionsToMap on.
  unfoldable pub generate : Registry → Profile → M (Unit {0})
  unfolding refuse fail_with
  generate registry profile = do
    spec ← reads (λ c. c.spec)
    let config = options_to_map env spec.profile spec.options
    if_nil (profile.validate config)
        (unless_error (profile.generate_plan_items config)
          (λ e. fail_with ("Failed to generate plan items: " ⊕ e))
          λ items.
            unless_error (compute_current_state_hash env items)
              (λ e. fail_with ("Failed to compute snapshot hash of current cluster state: " ⊕ e))
              (λ hash. store_plan registry items hash))
        (λ e. refuse ("Invalid config: " ⊕ e))

  unfoldable pub after_prerequisites : Registry → Profile → List Prerequisite → M (Unit {0})
  unfolding refuse
  after_prerequisites registry profile (p ∷ ps) = refuse (format_missing_prerequisites (p ∷ ps))
  after_prerequisites registry profile [] = do
    spec ← reads (λ c. c.spec)
    if_nil (validate_options spec.profile spec.options) (generate registry profile)
        (λ e. refuse ("Invalid profile options: " ⊕ e))

  unfoldable pub handle_drafting_phase : Registry → M (Unit {0})
  unfolding refuse fail_with
  handle_drafting_phase registry = do
    name ← reads (λ c. c.spec.profile)
    unless_error (lift (get_profile env registry name)) (λ e. refuse ("Profile not found: " ⊕ e))
        λ profile.
          unless_error (check_prerequisites env profile.prerequisites)
            (λ e. fail_with ("Failed to check prerequisites: " ⊕ e))
            (after_prerequisites registry profile)
