-- ===== src/Controller/Reconcile.antt =====
-- Reconcile of internal/controller/virtplatformconfig_controller.go, from the point where the
-- VirtPlatformConfig was fetched. The requeue delay of its result is `Requeue`.
pub mod Quiet
pub mod Phases
pub mod Machine
pub mod Stuck
pub mod Shipped
pub mod Seen
pub mod Finished
pub mod Immediate
pub mod Drift
pub mod Recovery
use virt_advisor_operator.Base.{
  ℕ, String, Bool, true, false, List, [], ◌∷◌, ◌==◌, ◌!=◌, if◌then◌else◌, nat_eq,
}
use virt_advisor_operator.Api.{PlanPhase, PlanAction, action_eq, Config}
use virt_advisor_operator.Kube.{Env, M, ◌>>=◌, ◌>>◌, return, reads, lift, unless_error}
use virt_advisor_operator.Discovery.{
  Prerequisite, check_prerequisites, format_missing_prerequisites,
}
use virt_advisor_operator.Profiles.{Registry, get_profile}
use virt_advisor_operator.Controller.{update_phase}
use virt_advisor_operator.Controller.InProgress.{handle_in_progress_phase}
use virt_advisor_operator.Controller.Upgrade.{handle_completed_with_upgrade_phase}
use virt_advisor_operator.Controller.Completed.{handle_completed_phase}
use virt_advisor_operator.Controller.Drafting.{
  handle_pending_phase, handle_drafting_phase, ensure_impact_level,
}
use virt_advisor_operator.Controller.Review.{handle_review_required_phase}
use virt_advisor_operator.Controller.Drifted.{handle_drifted_phase}

-- `ctrl.Result{}`, or `RequeueAfter: 2 * time.Minute`.
pub data Requeue : Type 0 where
  no_requeue in_two_minutes : Requeue

abbrev pub is_ignored : PlanPhase → Bool
is_ignored PlanPhase.ignored = true
is_ignored _ = false

-- The spec changed since the status was last written.
unfoldable pub spec_changed : Config → Bool
spec_changed plan = plan.status.observed_generation != plan.generation

unfoldable pub simply : M (Unit {0}) → M Requeue
simply m = do m; return no_requeue

module _ (env : Env) (registry : Registry) where
  unfoldable pub handle_ignore : Config → M Requeue
  handle_ignore plan = do
    ensure_impact_level env registry
    if is_ignored plan.status.phase then return no_requeue else (do
      update_phase env PlanPhase.ignored "Configuration ignored by administrator"
      return no_requeue)

  unfoldable pub after_missing : List Prerequisite → M Requeue
  after_missing [] = do
    update_phase env PlanPhase.pending "Prerequisites now available"
    return no_requeue
  after_missing (p ∷ ps) = do
    update_phase env PlanPhase.prerequisite_failed (format_missing_prerequisites (p ∷ ps))
    return in_two_minutes

  unfoldable pub handle_prerequisite_failed : Config → M Requeue
  unfolding after_missing
  handle_prerequisite_failed plan =
      unless_error (lift (get_profile env registry plan.spec.profile)) (λ _. return in_two_minutes)
        λ p.
          unless_error (check_prerequisites env p.prerequisites) (λ _. return in_two_minutes)
            after_missing

  unfoldable pub dispatch : PlanPhase → Config → M Requeue
  unfolding handle_prerequisite_failed spec_changed simply
  dispatch PlanPhase.unset plan = simply (handle_pending_phase env)
  dispatch PlanPhase.pending plan = simply (handle_pending_phase env)
  dispatch PlanPhase.drafting plan = simply (handle_drafting_phase env registry)
  dispatch PlanPhase.review_required plan = simply (handle_review_required_phase env registry)
  dispatch PlanPhase.in_progress plan = simply (handle_in_progress_phase env)
  dispatch PlanPhase.completed plan = simply (handle_completed_phase env registry)
  dispatch PlanPhase.completed_with_errors plan = simply (handle_completed_phase env registry)
  dispatch PlanPhase.completed_with_upgrade plan =
      simply (handle_completed_with_upgrade_phase env registry)
  dispatch PlanPhase.drifted plan =
      if spec_changed plan
      then simply (update_phase env PlanPhase.pending "Regenerating after spec change")
      else simply (handle_drifted_phase env)
  dispatch PlanPhase.failed plan =
      if spec_changed plan
      then simply (update_phase env PlanPhase.pending "Retrying after spec change")
      else return no_requeue
  dispatch PlanPhase.prerequisite_failed plan =
      if spec_changed plan
      then simply (update_phase env PlanPhase.pending "Retrying after spec change")
      else handle_prerequisite_failed plan
  -- Reconcile has dealt with Ignored before the switch.
  dispatch PlanPhase.ignored plan =
      simply (update_phase env PlanPhase.pending "Resetting unknown phase")
  dispatch (PlanPhase.unknown _) plan =
      simply (update_phase env PlanPhase.pending "Resetting unknown phase")

  -- Reconcile when the action is not Ignore.
  unfoldable pub resumed : Config → M Requeue
  resumed plan =
      if is_ignored plan.status.phase
      then simply
          (update_phase env PlanPhase.pending "Action changed from Ignore, regenerating plan")
      else dispatch plan.status.phase plan

  -- Reconcile once the object is at hand.
  unfoldable pub act : Config → M Requeue
  act plan = if plan.spec.action == PlanAction.ignore then handle_ignore plan else resumed plan

  unfoldable pub reconcile : M Requeue
  reconcile = reads (λ c. c) >>= act
