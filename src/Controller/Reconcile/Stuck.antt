-- ===== src/Controller/Reconcile/Stuck.antt =====
-- The states in which a reconciliation does nothing until the spec changes.
use virt_advisor_operator.Base.{
  true, false, ◌≡◌, ◌≢◌, ap, ◌∙◌, ◌&&◌, if_false, if_true, arith, ◌==◌, nat_eq,
}
use virt_advisor_operator.Api.{PlanPhase, PlanAction, action_eq}
use virt_advisor_operator.Kube.{Env, State, Outcome, done, fail, ◌>>=◌, return, reads, M}
use virt_advisor_operator.Profiles.{Registry}
use virt_advisor_operator.Controller.Items.{has_item_drift}
use virt_advisor_operator.Controller.Drifted.{handle_drifted_phase, still_drifted}
use virt_advisor_operator.Controller.Reconcile.{
  Requeue, no_requeue, dispatch, act, resumed, reconcile, spec_changed, simply, is_ignored,
}

pub acts_on : (a : PlanAction) → a ≢ PlanAction.ignore → (a == PlanAction.ignore) ≡ false
acts_on a h = ground arith

drifted :
    (env : Env) (s : State)
    → has_item_drift s.plan.status.items ≡ true
    → (s.plan.spec.action == PlanAction.apply && s.plan.spec.bypass_optimistic_lock) ≡ false
    → simply (handle_drifted_phase env) s ≡ done no_requeue s
unfolding simply handle_drifted_phase still_drifted ◌>>=◌ reads return
drifted env s drift forced =
    ap {A = Outcome (Unit {0})} (λ o. elim o [ done a t ↦ done no_requeue t | fail e t ↦ fail e t ])
      (ap {A = M (Unit {0})} (λ m. m s) (if_true _ _ drift)
        ∙ ap {A = M (Unit {0})} (λ m. m s) (if_false _ _ forced))

module _ (env : Env) (registry : Registry) where
  idle :
      (s : State)
      → (s.plan.spec.action == PlanAction.ignore) ≡ false
      → is_ignored s.plan.status.phase ≡ false
      → dispatch env registry s.plan.status.phase s.plan s ≡ done no_requeue s
      → reconcile env registry s ≡ done no_requeue s
  unfolding reconcile act resumed ◌>>=◌ reads
  idle s a i d =
      ap {A = M Requeue} (λ m. m s) (if_false _ _ a)
      ∙ ap {A = M Requeue} (λ m. m s) (if_false _ _ i)
      ∙ d

  -- Unless the action is Ignore, a plan in the Failed phase whose spec did not change since is left
  -- alone: a reconciliation calls nothing, writes nothing and asks for no requeue.
  reconcile-failed :
      (s : State)
      → s.plan.spec.action ≢ PlanAction.ignore
      → s.plan.status.phase ≡ PlanPhase.failed
      → spec_changed s.plan ≡ false
      → reconcile env registry s ≡ done no_requeue s
  unfolding dispatch return
  reconcile-failed s a p c = idle s (acts_on s.plan.spec.action a) (ap is_ignored p) (
      ap (λ q. dispatch env registry q s.plan s) p ∙ ap {A = M Requeue} (λ m. m s) (if_false _ _ c))

  -- Unless the action is Ignore, a plan in the Drifted phase whose spec did not change since, with an
  -- item that is marked as drifted, and that is not corrected by force, is left alone, whatever the
  -- state of the cluster: a reconciliation calls nothing, writes nothing and asks for no requeue.
  pub reconcile-undisturbed :
      (s : State)
      → s.plan.spec.action ≢ PlanAction.ignore
      → s.plan.status.phase ≡ PlanPhase.drifted
      → spec_changed s.plan ≡ false
      → has_item_drift s.plan.status.items ≡ true
      → (s.plan.spec.action == PlanAction.apply && s.plan.spec.bypass_optimistic_lock) ≡ false
      → reconcile env registry s ≡ done no_requeue s
  unfolding dispatch
  reconcile-undisturbed s a p c drift forced =
      idle s (acts_on s.plan.spec.action a) (ap is_ignored p) (
        ap (λ q. dispatch env registry q s.plan s) p
        ∙ ap {A = M Requeue} (λ m. m s) (if_false _ _ c)
        ∙ drifted env s drift forced)
