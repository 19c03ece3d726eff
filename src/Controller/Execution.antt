-- ===== src/Controller/Execution.antt =====
-- The execution of one plan item: checkOptimisticLock, handleItemFailure, processItemExecution,
-- checkItemHealth, handleItemWaitTimeout, checkItemDrift, refreshItemDiff and
-- finalizeInProgressPhase of internal/controller/virtplatformconfig_controller.go.
-- An item is named by its index, since the code holds a pointer into the slice.
use virt_advisor_operator.Base.{
  ℕ, ◌+◌, ◌-◌, ◌*◌, ◌/◌, String, Bool, true, false, not, Option, none, some, ◌&&◌, ◌||◌, ◌==◌, ◌!=◌,
  ltb, if◌then◌else◌, string_eq, ◌⊕◌,
}
use virt_advisor_operator.Api.{
  PlanPhase, FailurePolicy, policy_eq, ItemState, state_eq, Item, Config,
}
use virt_advisor_operator.Kube.{
  Env, M, ◌>>=◌, ◌>>◌, return, raise, reads, lift, attempt, unless_error, if_nil, now,
  update_status,
}
use virt_advisor_operator.Plan.{execute_item}
use virt_advisor_operator.Plan.Hash.{compute_current_state_hash}
use virt_advisor_operator.Plan.Diff.{generate_ssa_diff, no_changes_diff}
use virt_advisor_operator.Plan.Wait.{check_healthy}
use virt_advisor_operator.Controller.{item_at, set_item, set_status, update_phase}
use virt_advisor_operator.Controller.Items.{are_all_items_pending, has_item_drift, drift_message}

abbrev stale_message : String
stale_message =
    "Plan is stale: target resources have been modified since plan generation. Please regenerate the plan by changing action to DryRun, then review and re-approve."

-- `elapsed.Round(time.Second)`, in nanoseconds.
abbrev round_second : ℕ → ℕ
round_second d = (d + 500000000) / 1000000000 * 1000000000

module _ (env : Env) where
  -- A status update whose error is only logged.
  unfoldable pub update_status_logged : M (Unit {0})
  update_status_logged = do attempt (update_status env); return tt

  unfoldable pub compare_hash : String → String → M (Unit {0})
  compare_hash current stored =
      if current != stored
      then (do
        update_phase env PlanPhase.failed stale_message
        raise "plan is stale - execution aborted to prevent applying outdated configuration")
      else return tt

  unfoldable pub check_optimistic_lock : M (Unit {0})
  unfolding compare_hash
  check_optimistic_lock = do
    plan ← reads (λ c. c)
    let items = plan.status.items
    let stored = plan.status.source_snapshot_hash
    if not (are_all_items_pending items) || stored == ""
        then return tt
        else if plan.spec.bypass_optimistic_lock
        then return tt
        else unless_error (compute_current_state_hash env items)
            (λ e. do
              update_phase env PlanPhase.failed
                  ("Failed to verify cluster state before execution: " ⊕ e)
              raise ("hash computation failed - execution aborted: " ⊕ e))
            (λ current. compare_hash current stored)

  -- Whether to abort. An error of updatePhase comes back beside `true`; all callers return it.
  unfoldable pub handle_item_failure : ℕ → String → String → M Bool
  handle_item_failure i message error = do
    t ← now env
    set_item i (λ x. record x {
      last_transition_time = some t;
      state = ItemState.failed;
      message = message;
    })
    update_status_logged
    policy ← reads (λ c. c.spec.failure_policy)
    if policy == FailurePolicy.abort
        then (do
          item ← item_at i
          update_phase env PlanPhase.failed ("Item '" ⊕ item.name ⊕ "' failed: " ⊕ error)
          return true)
        else return false

  mark_in_progress : ℕ → Item → M (Unit {0})
  mark_in_progress i item =
      if item.state == ItemState.pending
      then (do
        t ← now env
        set_item i (λ x. record x {
          state = ItemState.in_progress;
          message = "Applying configuration...";
          last_transition_time = some t;
        })
        update_status_logged)
      else return tt

  -- (shouldAbort, shouldContinue).
  unfoldable pub process_item_execution : ℕ → M (Bool × Bool)
  unfolding mark_in_progress
  process_item_execution i = do
    before ← item_at i
    mark_in_progress i before
    item ← item_at i
    unless_error (execute_item env item)
        (λ e. do
          abort ← handle_item_failure i ("Failed to apply: " ⊕ e) e
          return (abort, not abort))
        (λ _. return (false, false))

  timed_out : Config → Item → ℕ → Option (ℕ × ℕ)
  timed_out plan item t = elim plan.spec.wait_timeout [
    | none ↦ none
    | some timeout ↦ elim item.last_transition_time [
      | none ↦ none
      | some since ↦ if ltb timeout (t - since) then some (t - since, timeout) else none
    ]
  ]

  still_waiting : ℕ → String → M (Bool × Bool)
  still_waiting i progress = do
    set_item i (λ x. record x { message = progress })
    update_status_logged
    return (false, true)

  -- (shouldAbort, shouldContinue).
  unfoldable pub handle_item_wait_timeout : ℕ → String → M (Bool × Bool)
  unfolding timed_out still_waiting
  handle_item_wait_timeout i progress = do
    plan ← reads (λ c. c)
    item ← item_at i
    t ← now env
    if_nil (timed_out plan item t) (still_waiting i progress) λ d. do
      abort ←
          handle_item_failure i
            ("Timeout waiting for resource to become healthy (waited "
              ⊕ env.format_duration (round_second d.0)
              ⊕ ", timeout "
              ⊕ env.format_duration d.1
              ⊕ "): "
              ⊕ progress)
            ("timeout after " ⊕ env.format_duration (round_second d.0))
      return (abort, not abort)

  -- The new diff of an item; the item in memory gets it from the caller.
  new_diff : Item → M String
  new_diff item =
      if_nil item.desired_state (raise "cannot refresh diff: item has no desired state") λ raw.
        unless_error (lift (env.unmarshal raw))
          (λ e. raise ("failed to unmarshal desired state: " ⊕ e))
          λ desired.
            unless_error (generate_ssa_diff env desired "virt-advisor-operator")
              (λ e. raise ("failed to regenerate diff: " ⊕ e)) return

  unfoldable pub refresh_item_diff : ℕ → M (Unit {0})
  unfolding new_diff
  refresh_item_diff i = do
    item ← item_at i
    diff ← new_diff item
    set_item i (λ x. record x { diff = diff })

  unfoldable pub check_item_drift : ℕ → M (Unit {0})
  check_item_drift i = do
    old ← item_at i
    unless_error (refresh_item_diff i)
        (λ e. raise ("failed to refresh diff for drift detection: " ⊕ e))
        λ _. do
          item ← item_at i
          if item.diff != old.diff
                && item.diff != no_changes_diff item.target_ref.name item.target_ref.kind
              then (do set_item i (λ x. record x { message = drift_message }); update_status_logged)
              else return tt

  complete_item : ℕ → String → M Bool
  complete_item i progress = do
    t ← now env
    set_item i (λ x. record x {
      last_transition_time = some t;
      state = ItemState.completed;
      message = progress;
    })
    attempt (refresh_item_diff i)
    unless_error (update_status env) (λ e. raise ("failed to update item success status: " ⊕ e))
        (λ _. return false)

  -- Whether to go on to the next item. After an abort the code returns false and no error.
  unfoldable pub check_item_health : ℕ → M Bool
  unfolding complete_item
  check_item_health i = do
    item ← item_at i
    unless_error (check_healthy env item)
        (λ e. do abort ← handle_item_failure i ("Health check failed: " ⊕ e) e; return (not abort))
        (λ h.
          if h.needs_wait && not h.healthy
          then (do r ← handle_item_wait_timeout i h.message; return (if r.0 then false else r.1))
          else complete_item i h.message)

  unfoldable pub finalize_in_progress_phase : Bool → M (Unit {0})
  finalize_in_progress_phase has_failures = do
    items ← reads (λ c. c.status.items)
    unless_error (compute_current_state_hash env items) (λ _. return tt)
        (λ hash. set_status (λ s. record s { source_snapshot_hash = hash }))
    if has_failures
        then update_phase env PlanPhase.completed_with_errors "Plan completed with some errors"
        else if has_item_drift items
        then update_phase env PlanPhase.drifted
            "Configuration drift detected - one or more items have drifted from desired state"
        else update_phase env PlanPhase.completed "All items applied successfully"
