-- ===== src/Tests/Machine.antt =====
-- The theorems on the reconciler at concrete plans.
use virt_advisor_operator.Base.{[], ◌∷◌, ◌≡◌, ◌≢◌, ◌⊎◌, refl, inr, arith, All, map, string_eq}
use virt_advisor_operator.Api.{PlanPhase, PlanAction, ItemState, Item}
use virt_advisor_operator.Kube.{
  final, done, return, get_object, on_reply, unless_error, lift, ◌>>=◌,
}
use virt_advisor_operator.Kube.Applied.{applied}
use virt_advisor_operator.Controller.Items.{drift_message, has_item_drift, are_all_items_pending}
use virt_advisor_operator.Controller.InProgress.{handle_in_progress_phase}
use virt_advisor_operator.Controller.InProgress.Lock.{
  Refused, Mismatch, handle_in_progress_phase-Refused,
}
use virt_advisor_operator.Controller.InProgress.Content.{content, handle_in_progress_phase-content}
use virt_advisor_operator.Controller.InProgress.Terminal.{
  Terminal, handle_in_progress_phase-Terminal,
}
use virt_advisor_operator.Controller.Review.{handle_review_required_phase}
use virt_advisor_operator.Controller.Review.Approval.{handle_review_required_phase-approved}
use virt_advisor_operator.Controller.Reconcile.{reconcile, no_requeue, spec_changed}
use virt_advisor_operator.Controller.Reconcile.Phases.{targets}
use virt_advisor_operator.Controller.Reconcile.Machine.{
  OneOf, reconcile-NoApply, reconcile-SameSpec, reconcile-OneOf,
}
use virt_advisor_operator.Controller.Reconcile.Drift.{reconcile-drifted}
use virt_advisor_operator.Plan.{get_unstructured}
use virt_advisor_operator.Plan.Hash.{
  compute_current_state_hash, collect_states, fetch_resource_for_hashing, extract_managed_state,
  extract_paths, extract_fields,
}
use virt_advisor_operator.Tests.Samples.{cluster, item, registry, plan_in, registry-Quiet, other}

reconcile-NoApply_example :
    applied
      (final (reconcile cluster registry (plan_in PlanPhase.drafting PlanAction.apply []))).history
    ≡ []
reconcile-NoApply_example =
    reconcile-NoApply cluster registry registry-Quiet
      (plan_in PlanPhase.drafting PlanAction.apply []) (inr (ground arith))

reconcile-SameSpec_example :
    let s = plan_in PlanPhase.in_progress PlanAction.apply (item ∷ []) in
    let t = final (reconcile cluster registry s) in
    (t.plan.spec ≡ s.plan.spec) × (t.plan.generation ≡ 2) × (t.plan.name ≡ "tuned")
reconcile-SameSpec_example =
    reconcile-SameSpec cluster registry registry-Quiet
      (plan_in PlanPhase.in_progress PlanAction.apply (item ∷ []))

reconcile-OneOf_example :
    let t = final (reconcile cluster registry (plan_in PlanPhase.drafting PlanAction.dry_run [])) in
    (t.plan.status.phase ≡ PlanPhase.drafting)
    ⊎ OneOf (targets PlanPhase.drafting) t.plan.status.phase
reconcile-OneOf_example =
    reconcile-OneOf cluster registry registry-Quiet
      (plan_in PlanPhase.drafting PlanAction.dry_run [])

-- The cluster hashes to another text than the stored one.
other_hash : Mismatch "approved" (
    compute_current_state_hash cluster
      (item ∷ [])
      (plan_in PlanPhase.in_progress PlanAction.apply (item ∷ [])))
unfolding compute_current_state_hash collect_states fetch_resource_for_hashing get_unstructured
    get_object on_reply extract_managed_state extract_paths extract_fields unless_error lift return
    ◌>>=◌
other_hash = other "cluster" "approved" refl

handle_in_progress_phase-Refused_example :
    let s = plan_in PlanPhase.in_progress PlanAction.apply (item ∷ []) in
    Refused s (handle_in_progress_phase cluster s)
unfolding are_all_items_pending
handle_in_progress_phase-Refused_example =
    handle_in_progress_phase-Refused cluster
      (plan_in PlanPhase.in_progress PlanAction.apply (item ∷ [])) refl (other "approved" "" refl)
      refl other_hash

abbrev running_item : Item
running_item = record item { state = ItemState.in_progress }

abbrev failed_item : Item
failed_item = record item { state = ItemState.failed }

handle_in_progress_phase-Terminal_example :
    let s = plan_in PlanPhase.in_progress PlanAction.apply (running_item ∷ failed_item ∷ []) in
    let t = final (handle_in_progress_phase cluster s) in
    (t.plan.status.phase ≡ PlanPhase.in_progress)
    ⊎ (t.plan.status.phase ≡ PlanPhase.failed)
    ⊎ All Terminal t.plan.status.items
handle_in_progress_phase-Terminal_example =
    handle_in_progress_phase-Terminal cluster
      (plan_in PlanPhase.in_progress PlanAction.apply (running_item ∷ failed_item ∷ []))

handle_in_progress_phase-content_example :
    let s = plan_in PlanPhase.in_progress PlanAction.apply (running_item ∷ failed_item ∷ []) in
    map content (final (handle_in_progress_phase cluster s)).plan.status.items
    ≡ content item ∷ content item ∷ []
handle_in_progress_phase-content_example =
    handle_in_progress_phase-content cluster
      (plan_in PlanPhase.in_progress PlanAction.apply (running_item ∷ failed_item ∷ []))

handle_review_required_phase-approved_example :
    let s = plan_in PlanPhase.review_required PlanAction.dry_run (item ∷ []) in
    let t = final (handle_review_required_phase cluster registry s) in
    (t.plan.status.phase ≡ PlanPhase.review_required) ⊎ (t.plan.status.phase ≡ PlanPhase.pending)
handle_review_required_phase-approved_example =
    handle_review_required_phase-approved cluster registry
      (plan_in PlanPhase.review_required PlanAction.dry_run (item ∷ [])) (ground arith)

abbrev drifted_item : Item
drifted_item = record item { state = ItemState.completed; message = drift_message }

reconcile-drifted_example :
    let s = plan_in PlanPhase.drifted PlanAction.apply (drifted_item ∷ []) in
    ((final (reconcile cluster registry s)).plan.status.phase ≡ PlanPhase.drifted)
    × ((PlanPhase.drifted ≢ PlanPhase.drifted) ⊎ (reconcile cluster registry s ≡ done no_requeue s))
unfolding spec_changed has_item_drift
reconcile-drifted_example =
    reconcile-drifted cluster registry
      (plan_in PlanPhase.drifted PlanAction.apply (drifted_item ∷ [])) (ground arith) refl refl
