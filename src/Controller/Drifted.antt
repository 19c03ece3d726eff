-- ===== src/Controller/Drifted.antt =====
-- handleDriftedPhase of internal/controller/virtplatformconfig_phases.go.
use virt_advisor_operator.Base.{not, ◌&&◌, ◌==◌, if◌then◌else◌, map}
use virt_advisor_operator.Api.{PlanPhase, PlanAction, action_eq, ItemState, Item, Config}
use virt_advisor_operator.Kube.{Env, M, ◌>>=◌, ◌>>◌, return, reads, unless_error}
use virt_advisor_operator.Plan.Hash.{detect_drift}
use virt_advisor_operator.Controller.{set_status, update_phase}
use virt_advisor_operator.Controller.Items.{has_item_drift}

-- The reset of one item before it is applied again.
abbrev pub reset_item : Item → Item
reset_item item = record item {
  state = ItemState.pending;
  message = "Re-applying to fix drift (bypassOptimisticLock)";
}

module _ (env : Env) where
  -- The drift is still there.
  unfoldable pub still_drifted : Config → M (Unit {0})
  still_drifted plan =
      if plan.spec.action == PlanAction.apply && plan.spec.bypass_optimistic_lock
      then (do
        set_status (λ s. record s { items = map reset_item s.items })
        update_phase env PlanPhase.in_progress
            "Auto-correcting drift (bypassOptimisticLock enabled)")
      else return tt

  unfoldable pub handle_drifted_phase : M (Unit {0})
  unfolding still_drifted
  handle_drifted_phase = do
    plan ← reads (λ c. c)
    if has_item_drift plan.status.items
        then still_drifted plan
        else unless_error (detect_drift env plan.status.items plan.status.source_snapshot_hash)
            (λ _. return tt)
            λ drifted.
              if not drifted
              then update_phase env PlanPhase.completed
                  "Drift has been corrected - configuration is back in sync"
              else still_drifted plan
