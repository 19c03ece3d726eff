-- ===== src/Tests/Runs.antt =====
-- The theorems on runs of the reconciler, on discovery, on field paths and on numbers at concrete inputs.
use virt_advisor_operator.Base.{
  false, List, String, [], ◌∷◌, ◌≡◌, refl, inl, inr, arith, Memᴰ, true, ◌↔◌, ◌⊎◌,
}
use virt_advisor_operator.Base.Int.{pos, int32}
use virt_advisor_operator.Api.{PlanPhase, PlanAction, Config, Item, ItemState}
use virt_advisor_operator.Api.Json.{obj, end}
use virt_advisor_operator.Kube.{State, final, GetReply, present}
use virt_advisor_operator.Kube.Applied.{sent, applied}
use virt_advisor_operator.Kube.Returns.{Returns}
use virt_advisor_operator.Discovery.{Prerequisite, check_prerequisites}
use virt_advisor_operator.Discovery.Missing.{any_failure, absent_ones, check_prerequisites-absent}
use virt_advisor_operator.Plan.Path.{parse_field_path}
use virt_advisor_operator.Plan.Path.RoundTrip.{IsName, parse_field_path-path_text}
use virt_advisor_operator.Util.{get_nested_int32}
use virt_advisor_operator.Util.Bounds.{get_nested_int32_iff}
use virt_advisor_operator.Profiles.{get_profile, lookup}
use virt_advisor_operator.Controller.Drafting.{handle_drafting_phase}
use virt_advisor_operator.Controller.Drafting.DryRun.{NoChanges, handle_drafting_phase-dry_run}
use virt_advisor_operator.Controller.Reconcile.Machine.{OneOf}
use virt_advisor_operator.Controller.Reconcile.{reconcile, spec_changed}
use virt_advisor_operator.Controller.Reconcile.Finished.{reconcile-Finished}
use virt_advisor_operator.Controller.Reconcile.Immediate.{MovedTo, reconcile-MovedTo}
use virt_advisor_operator.Controller.Reconcile.Seen.{reconcile-Seen}
use virt_advisor_operator.Controller.Reconcile.Recovery.{reconcile-prerequisites}
use virt_advisor_operator.Controller.Runs.Life.{Run, Step, WellFormed, Run-WellFormed}
use virt_advisor_operator.Tests.Samples.{
  cluster, item, profile, registry, plan_in, registry-Quiet, other,
}

abbrev start : State
start = plan_in PlanPhase.unset PlanAction.apply []

abbrev edited_start : State
edited_start = record start { plan = record start.plan { generation = 3 } }

abbrev reconciled_once : State
reconciled_once = final (reconcile cluster registry edited_start)

-- An edit of the spec and a reconciliation after it.
Run-WellFormed_example :
    WellFormed reconciled_once.plan
    × ((c : Config) → Memᴰ c (sent reconciled_once.history) → WellFormed c)
Run-WellFormed_example =
    Run-WellFormed cluster registry registry-Quiet
      (Run.next (Run.next Run.here (Step.edited start start.plan.spec 3 (omega arith)))
        (Step.reconciled edited_start reconciled_once.plan (inl refl)))
      (tt, (tt, tt), omega arith) refl

reconcile-Seen_example :
    let s = plan_in PlanPhase.drafting PlanAction.apply [] in
    let t = final (reconcile cluster registry s) in
    ((t.plan.status.phase ≡ PlanPhase.drafting) × (t.plan.status.observed_generation ≡ 2))
    ⊎ (spec_changed t.plan ≡ false)
reconcile-Seen_example =
    reconcile-Seen cluster registry registry-Quiet (plan_in PlanPhase.drafting PlanAction.apply [])

reconcile-prerequisites_example :
    (final (
      reconcile cluster registry
        (plan_in PlanPhase.prerequisite_failed PlanAction.apply []))).plan.status.phase
    ≡ PlanPhase.pending
unfolding spec_changed get_profile lookup
reconcile-prerequisites_example =
    reconcile-prerequisites cluster registry (λ name. GetReply.found (obj end)) profile
      (plan_in PlanPhase.prerequisite_failed PlanAction.apply []) (λ h name. refl) (ground arith)
      refl refl refl refl

-- A type of an API group that is not there.
abbrev prerequisite : Prerequisite
prerequisite = record {
  gvk = record { group = "operator.openshift.io"; version = "v1"; kind = "KubeDescheduler" };
  description = "";
}

check_prerequisites-absent_example :
    let answer : String → GetReply = λ name. GetReply.found (obj end) in
    Returns
      (λ e. any_failure answer (prerequisite ∷ []) ≡ true)
      (λ missing.
        (any_failure answer (prerequisite ∷ []) ≡ false)
        × (missing ≡ absent_ones answer (prerequisite ∷ [])))
      (check_prerequisites cluster (prerequisite ∷ []))
check_prerequisites-absent_example =
    check_prerequisites-absent cluster (λ name. GetReply.found (obj end)) (λ h name. refl)
      (prerequisite ∷ [])

abbrev names : List String
names = "spec" ∷ "psi" ∷ []

spec-IsName : IsName "spec"
spec-IsName = (other "spec" "" refl, (refl, (refl, (refl, (refl, tt)))))

psi-IsName : IsName "psi"
psi-IsName = (other "psi" "" refl, (refl, (refl, (refl, tt))))

parse_field_path-path_text_example : parse_field_path "spec.psi" ≡ names
parse_field_path-path_text_example =
    parse_field_path-path_text names (spec-IsName, (psi-IsName, tt))

get_nested_int32_iff_example :
    (get_nested_int32 cluster (obj end) ("machineCount" ∷ []) ≡ present (pos 3)) ↔ (
      (cluster.nested_int64 (obj end) ("machineCount" ∷ []) ≡ present (pos 3))
      × (int32 (pos 3) ≡ pos 3))
get_nested_int32_iff_example = get_nested_int32_iff cluster (obj end) ("machineCount" ∷ []) (pos 3)

handle_drafting_phase-dry_run_example :
    let t =
      final (
        handle_drafting_phase cluster registry
          (plan_in PlanPhase.drafting PlanAction.dry_run [])) in
    (t.plan.status.phase ≡ PlanPhase.drafting)
    ⊎ OneOf
        (PlanPhase.review_required ∷ PlanPhase.prerequisite_failed ∷ PlanPhase.failed ∷ [])
        t.plan.status.phase
    ⊎ NoChanges t.plan.status.items
handle_drafting_phase-dry_run_example =
    handle_drafting_phase-dry_run cluster registry registry-Quiet
      (plan_in PlanPhase.drafting PlanAction.dry_run []) refl

abbrev done_item : Item
done_item = record item { state = ItemState.completed }

abbrev failed_item : Item
failed_item = record item { state = ItemState.failed }

reconcile-Finished_example :
    applied
      (final (
        reconcile cluster registry
          (plan_in PlanPhase.in_progress PlanAction.apply (done_item ∷ failed_item ∷ [])))).history
    ≡ []
reconcile-Finished_example =
    reconcile-Finished cluster registry registry-Quiet
      (plan_in PlanPhase.in_progress PlanAction.apply (done_item ∷ failed_item ∷ []))
      (inl refl, (inr refl, tt))

-- A failed plan whose spec was edited.
abbrev edited_failure : State
edited_failure =
    let s = plan_in PlanPhase.failed PlanAction.apply (failed_item ∷ []) in
    record s { plan = record s.plan { generation = 3 } }

reconcile-MovedTo_example :
    MovedTo PlanPhase.pending edited_failure (final (reconcile cluster registry edited_failure))
unfolding spec_changed
reconcile-MovedTo_example =
    reconcile-MovedTo cluster registry PlanPhase.pending edited_failure (ground arith) refl
