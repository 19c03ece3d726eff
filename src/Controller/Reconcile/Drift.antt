-- ===== src/Controller/Reconcile/Drift.antt =====
-- How a plan with a drifted item leaves the Drifted phase.
use virt_advisor_operator.Base.{
  true, false, Bool, ◌≡◌, ◌≢◌, ◌⊎◌, inl, inr, ap, ◌∙◌, ◌&&◌, ◌==◌, arith, Bool-cases, if_true,
  if_false, if◌then◌else◌,
}
use virt_advisor_operator.Api.{PlanPhase, PlanAction, action_eq, Config}
use virt_advisor_operator.Kube.{Env, State, M, Outcome, done, final, ◌>>=◌, reads, writes}
use virt_advisor_operator.Profiles.{Registry}
use virt_advisor_operator.Controller.{set_status}
use virt_advisor_operator.Controller.Drifted.{handle_drifted_phase, still_drifted}
use virt_advisor_operator.Controller.Items.{has_item_drift}
use virt_advisor_operator.Controller.Reconcile.{
  Requeue, no_requeue, simply, is_ignored, dispatch, act, resumed, reconcile, spec_changed,
}
use virt_advisor_operator.Controller.Reconcile.Finished.{final-simply}
use virt_advisor_operator.Controller.Reconcile.Immediate.{reconcile-MovedTo, next}
use virt_advisor_operator.Controller.Reconcile.Recovery.{phase-update_phase}
use virt_advisor_operator.Controller.Reconcile.Stuck.{acts_on, reconcile-undisturbed}

-- The drift is to be corrected without a review.
abbrev pub is_forced : Config → Bool
is_forced plan = plan.spec.action == PlanAction.apply && plan.spec.bypass_optimistic_lock

-- The phase to which a plan with a drifted item goes.
abbrev pub onward : Config → PlanPhase
onward plan =
    if spec_changed plan
    then PlanPhase.pending
    else if is_forced plan
    then PlanPhase.in_progress
    else PlanPhase.drifted

corrected :
    (env : Env) (s : State)
    → has_item_drift s.plan.status.items ≡ true
    → is_forced s.plan ≡ true
    → (final (simply (handle_drifted_phase env) s)).plan.status.phase ≡ PlanPhase.in_progress
unfolding handle_drifted_phase still_drifted ◌>>=◌ reads set_status writes
corrected env s drift forced =
    ap (λ t. t.plan.status.phase) (final-simply (handle_drifted_phase env) s)
    ∙ ap {A = M (Unit {0})} (λ m. (final (m s)).plan.status.phase) (if_true _ _ drift)
    ∙ ap {A = M (Unit {0})} (λ m. (final (m s)).plan.status.phase) (if_true _ _ forced)
    ∙ phase-update_phase env PlanPhase.in_progress _ _

module _ (env : Env) (registry : Registry) where
  handled :
      (s : State)
      → s.plan.spec.action ≢ PlanAction.ignore
      → s.plan.status.phase ≡ PlanPhase.drifted
      → spec_changed s.plan ≡ false
      → final (reconcile env registry s) ≡ final (simply (handle_drifted_phase env) s)
  unfolding reconcile act resumed dispatch ◌>>=◌ reads
  handled s acts phase same =
      ap {A = M Requeue} (λ m. final (m s)) (if_false _ _ (acts_on s.plan.spec.action acts))
      ∙ ap {A = M Requeue} (λ m. final (m s)) (if_false _ _ (ap is_ignored phase))
      ∙ ap (λ q. final (dispatch env registry q s.plan s)) phase
      ∙ ap {A = M Requeue} (λ m. final (m s)) (if_false _ _ same)

  -- Unless the action is Ignore, a reconciliation of a plan in the Drifted phase with an item that is
  -- marked as drifted moves it to Pending if its spec changed, else to InProgress if the drift is to be
  -- corrected without a review, and else leaves it in Drifted, whatever the state of the cluster: it
  -- never goes to Completed. Where it stays in Drifted, the reconciliation calls nothing, writes
  -- nothing and asks for no requeue.
  pub reconcile-drifted :
      (s : State)
      → s.plan.spec.action ≢ PlanAction.ignore
      → s.plan.status.phase ≡ PlanPhase.drifted
      → has_item_drift s.plan.status.items ≡ true
      → ((final (reconcile env registry s)).plan.status.phase ≡ onward s.plan)
        × ((onward s.plan ≢ PlanPhase.drifted) ⊎ (reconcile env registry s ≡ done no_requeue s))
  unfolding final
  reconcile-drifted s acts phase drift = elim (Bool-cases (spec_changed s.plan)) [
    | inl c ↦ rw c (
      (reconcile-MovedTo env registry PlanPhase.pending s acts
          (ap (λ p. next p (spec_changed s.plan)) phase ∙ if_true _ _ c)).0,
      inl (λ e. ground arith),
    )
    | inr c ↦ elim (Bool-cases (is_forced s.plan)) [
      | inl f ↦
          rw (c, f)
            (
              ap (λ t. t.plan.status.phase) (handled s acts phase c) ∙ corrected env s drift f,
              inl (λ e. ground arith),
            )
      | inr f ↦
          let still = reconcile-undisturbed env registry s acts phase c drift f in
          rw (c, f)
            (ap {A = Outcome Requeue} (λ o. (final o).plan.status.phase) still ∙ phase, inr still)
    ]
  ]
