-- ===== src/Controller/Completed.antt =====
-- handleCompletedPhase of internal/controller/virtplatformconfig_phases.go, in the order of its
-- early returns, and ensureCompletedPhaseConditions of virtplatformconfig_controller.go.
pub mod Fresh
use virt_advisor_operator.Base.{
  ℕ, String, Bool, true, false, not, List, [], ◌∷◌, ◌&&◌, ◌||◌, ◌==◌, ◌!=◌, if◌then◌else◌, any, map,
  string_eq, ◌⊕◌,
}
use virt_advisor_operator.Api.{
  PlanPhase, ItemState, state_eq, Item, is_true, is_false, status_eq, Condition, Status,
}
use virt_advisor_operator.Kube.{
  Env, M, ◌>>=◌, ◌>>◌, return, raise, reads, attempt, unless_error, for_each, now, update_status,
}
use virt_advisor_operator.Conditions.Texts
use virt_advisor_operator.Plan.Hash.{compute_current_state_hash, detect_drift}
use virt_advisor_operator.Plan.Wait.{check_healthy}
use virt_advisor_operator.Profiles.{Registry}
use virt_advisor_operator.Controller.{
  item_at, item_indices, set_item, set_status, mark, update_phase,
}
use virt_advisor_operator.Controller.Items.{has_item_drift, has_true_condition, plan_items_differ}
use virt_advisor_operator.Controller.Execution.{check_item_drift}
use virt_advisor_operator.Controller.Hco.{hco_changed}
use virt_advisor_operator.Controller.Upgrade.{
  options_changed, is_upgraded, operator_version, generate_plan_items_with_new_logic,
}

-- A condition that contradicts the Completed phase: the `if` of each case of the switch.
unfoldable pub is_stale : Condition → Bool
is_stale c =
    ((c.type == Texts.drifted || c.type == Texts.drafting || c.type == Texts.in_progress)
      && c.status == is_true)
    || (c.type == Texts.completed && c.status == is_false)

unfoldable pub freshen : ℕ → Condition → Condition
unfolding is_stale
freshen t c =
    if not (is_stale c)
    then c
    else if c.type == Texts.drifted
    then record c {
      status = is_false;
      reason = "NoDrift";
      message = Texts.msg_no_drift;
      last_transition_time = t;
    }
    else if c.type == Texts.drafting
    then record c {
      status = is_false;
      reason = "NotDrafting";
      message = Texts.msg_not_drafting;
      last_transition_time = t;
    }
    else if c.type == Texts.in_progress
    then record c {
      status = is_false;
      reason = "NotInProgress";
      message = Texts.msg_applied;
      last_transition_time = t;
    }
    else record c {
      status = is_true;
      reason = "Completed";
      message = Texts.msg_success;
      last_transition_time = t;
    }

module _ (env : Env) where
  unfoldable pub ensure_completed_phase_conditions : M (Unit {0})
  ensure_completed_phase_conditions = do
    t ← now env
    conditions ← reads (λ c. c.status.conditions)
    set_status (λ s. record s { conditions = map (freshen t) s.conditions })
    if any is_stale conditions then update_status env else return tt

  -- From the drift check by hash on.
  unfoldable pub completed_drift_stage : M (Unit {0})
  completed_drift_stage = do
    status ← reads (λ c. c.status)
    if has_item_drift status.items
        then update_phase env PlanPhase.drifted
            "Configuration drift detected - one or more items have drifted from desired state"
        else if status.source_snapshot_hash == ""
        then unless_error (compute_current_state_hash env status.items) (λ _. return tt)
            (λ hash. do
              set_status (λ s. record s { source_snapshot_hash = hash })
              update_status env)
        else unless_error (detect_drift env status.items status.source_snapshot_hash)
            (λ _. return tt)
            λ drifted.
              if drifted
              then (do
                rounds ← item_indices
                for_each rounds (λ i. do attempt (check_item_drift env i); return tt)
                update_phase env PlanPhase.drifted
                    "Configuration drift detected - cluster state has changed from applied configuration")
              else ensure_completed_phase_conditions

  -- The body of the health loop: whether the item made needsRequeue true.
  unfoldable pub monitor_item : ℕ → M Bool
  monitor_item i = do
    item ← item_at i
    if item.state != ItemState.completed
        then return false
        else unless_error (check_healthy env item) (λ _. return false)
            λ h.
              if h.needs_wait && not h.healthy
              then (do
                set_item i (λ x. record x { state = ItemState.in_progress; message = h.message })
                return true)
              else return false

  unfoldable pub monitor_items : List ℕ → Bool → M Bool
  monitor_items [] requeue = return requeue
  monitor_items (i ∷ rest) requeue =
      monitor_item i >>= λ unhealthy. monitor_items rest (unhealthy || requeue)

  -- From the health checks on. `statusChanged` is set only where `needsRequeue` is.
  unfoldable pub completed_health_stage : M (Unit {0})
  completed_health_stage = do
    rounds ← item_indices
    requeue ← monitor_items rounds false
    if requeue
        then unless_error (update_status env)
            (λ e. raise ("failed to update item health status: " ⊕ e))
            (λ _.
              update_phase env PlanPhase.in_progress
                "MachineConfigPool is updating - waiting for convergence")
        else completed_drift_stage

module _ (env : Env) (registry : Registry) where
  -- From the HyperConverged checks on.
  unfoldable pub completed_input_stage : M (Unit {0})
  completed_input_stage = do
    r ← hco_changed env registry
    if r.0
        then (do
          mark env Texts.input_drift is_true "InputChanged" ("Input dependency changed: " ⊕ r.1)
          update_status env
          update_phase env PlanPhase.drafting
              ("Regenerating plan due to input dependency change: " ⊕ r.1))
        else completed_health_stage env

  -- From the test that clears UpgradeAvailable on.
  unfoldable pub completed_current_stage : M (Unit {0})
  completed_current_stage = do
    status ← reads (λ c. c.status)
    if status.operator_version == operator_version
          && has_true_condition Texts.upgrade status.conditions
        then (do
          mark env Texts.upgrade is_false "Applied" "Upgrade changes applied"
          update_status env)
        else completed_input_stage

  unfoldable pub upgraded_items : Status → List Item → M (Unit {0})
  upgraded_items status items =
      if plan_items_differ env items status.items
      then (do
        mark env Texts.upgrade is_true "LogicChanged" (
            "Operator upgraded from " ⊕ status.operator_version ⊕ " to " ⊕ operator_version
            ⊕ " with profile logic changes. Regenerate plan (action=DryRun) to review proposed changes.")
        update_phase env PlanPhase.completed_with_upgrade (
            "Operator upgraded from " ⊕ status.operator_version ⊕ " to " ⊕ operator_version
            ⊕ " - profile logic changes detected"))
      else (do
        mark env Texts.upgrade is_false "NoLogicChange"
            "Operator upgraded but profile logic unchanged"
        set_status (λ s. record s { operator_version = operator_version })
        update_status env)

  unfoldable pub handle_completed_phase : M (Unit {0})
  handle_completed_phase = do
    plan ← reads (λ c. c)
    if options_changed plan.spec.options plan.status.applied_options
        then update_phase env PlanPhase.drafting "Options changed - regenerating plan"
        else if is_upgraded plan.status
        then unless_error (generate_plan_items_with_new_logic env registry)
            (λ _. completed_current_stage) (upgraded_items plan.status)
        else completed_current_stage
