-- ===== src/Controller/Reconcile/Immediate.antt =====
-- The changes of the phase that a reconciliation makes without a look at the cluster.
use mathlib.Core.Option.{some-injective, none-ne-some}
use virt_advisor_operator.Base.{
  String, Bool, true, false, Option, none, some, ◌∷◌, ◌≡◌, ◌≢◌, refl, sym, ap, subst, ◌∙◌, inl, inr,
  if_false, Bool-cases, arith, if◌then◌else◌,
}
use virt_advisor_operator.Api.{PlanPhase, PlanAction, action_eq}
use virt_advisor_operator.Kube.{
  Env, State, M, update, final, ◌>>=◌, reads, now, writes, update_status,
}
use virt_advisor_operator.Profiles.{Registry}
use virt_advisor_operator.Controller.{update_phase}
use virt_advisor_operator.Controller.Reconcile.{
  Requeue, simply, is_ignored, dispatch, act, resumed, reconcile, spec_changed,
}
use virt_advisor_operator.Controller.Drafting.{handle_pending_phase}
use virt_advisor_operator.Controller.Reconcile.Finished.{final-simply}
use virt_advisor_operator.Controller.Reconcile.Recovery.{answered}
use virt_advisor_operator.Controller.Reconcile.Seen.{same_number}
use virt_advisor_operator.Controller.Reconcile.Stuck.{acts_on}

-- The phase to go to at once, by the phase and whether the spec changed.
abbrev pub next : PlanPhase → Bool → Option PlanPhase
next PlanPhase.unset c = some PlanPhase.drafting
next PlanPhase.pending c = some PlanPhase.drafting
next PlanPhase.ignored c = some PlanPhase.pending
next (PlanPhase.unknown _) c = some PlanPhase.pending
next PlanPhase.failed c = if c then some PlanPhase.pending else none
next PlanPhase.drifted c = if c then some PlanPhase.pending else none
next PlanPhase.prerequisite_failed c = if c then some PlanPhase.pending else none
next _ c = none

-- The phase was set, the generation observed, and the status sent in one update.
abbrev pub MovedTo : PlanPhase → State → State → Type 0
MovedTo q s t =
    (t.plan.status.phase ≡ q)
    × (spec_changed t.plan ≡ false)
    × (t.history ≡ update t.plan ∷ s.history)

module _ (env : Env) where
  MovedTo-update_phase :
      (q : PlanPhase) (message : String) (s : State)
      → MovedTo q s (final (simply (update_phase env q message) s))
  unfolding update_phase now writes update_status ◌>>=◌ spec_changed
  MovedTo-update_phase q message s =
      subst (MovedTo q s) (sym (final-simply (update_phase env q message) s ∙ answered env _ _))
        (refl, same_number _ _ refl, refl)

to :
    {r : PlanPhase} {t : State} (q : PlanPhase) (s : State)
    → some r ≡ some q
    → MovedTo r s t
    → MovedTo q s t
to {r} q s e h = (h.0 ∙ some-injective r q e, h.1, h.2)

module _ (env : Env) (registry : Registry) where
  -- The phases whose handler looks at the spec first.
  MovedTo-if :
      (changed : Bool) (message : String) (m : M Requeue) (q : PlanPhase) (s : State)
      → (if changed then some PlanPhase.pending else none) ≡ some q
      → MovedTo q s
          (final ((if changed then simply (update_phase env PlanPhase.pending message) else m) s))
  MovedTo-if true message m q s e = to q s e (MovedTo-update_phase env PlanPhase.pending message s)
  MovedTo-if false message m q s e = absurd (none-ne-some q e)

  MovedTo-dispatch :
      (p : PlanPhase) (q : PlanPhase) (s : State)
      → next p (spec_changed s.plan) ≡ some q
      → MovedTo q s (final (dispatch env registry p s.plan s))
  unfolding dispatch handle_pending_phase
  MovedTo-dispatch PlanPhase.unset q s e = to q s e (MovedTo-update_phase env _ _ s)
  MovedTo-dispatch PlanPhase.pending q s e = to q s e (MovedTo-update_phase env _ _ s)
  MovedTo-dispatch PlanPhase.ignored q s e = to q s e (MovedTo-update_phase env _ _ s)
  MovedTo-dispatch (PlanPhase.unknown _) q s e = to q s e (MovedTo-update_phase env _ _ s)
  MovedTo-dispatch PlanPhase.failed q s e = MovedTo-if (spec_changed s.plan) _ _ q s e
  MovedTo-dispatch PlanPhase.drifted q s e = MovedTo-if (spec_changed s.plan) _ _ q s e
  MovedTo-dispatch PlanPhase.prerequisite_failed q s e = MovedTo-if (spec_changed s.plan) _ _ q s e
  MovedTo-dispatch _ q s e = absurd (none-ne-some q e)

  ignored_phase : (p : PlanPhase) → is_ignored p ≡ true → p ≡ PlanPhase.ignored
  ignored_phase PlanPhase.ignored e = refl
  ignored_phase _ e = ground arith

  -- Let the action not be Ignore. A plan without a phase or in Pending goes to Drafting, one in Ignored
  -- or an unknown phase to Pending, and one in Failed, Drifted or PrerequisiteFailed whose spec
  -- changed to Pending. The reconciliation makes no call but one status update, and leaves a plan
  -- whose spec counts as unchanged.
  pub reconcile-MovedTo :
      (q : PlanPhase) (s : State)
      → s.plan.spec.action ≢ PlanAction.ignore
      → next s.plan.status.phase (spec_changed s.plan) ≡ some q
      → MovedTo q s (final (reconcile env registry s))
  unfolding reconcile act resumed ◌>>=◌ reads
  reconcile-MovedTo q s acts e =
      rw (if_false _ _ (acts_on s.plan.spec.action acts))
        (elim (Bool-cases (is_ignored s.plan.status.phase)) [
          | inl i ↦ rw i (
              to q s (sym (ap (λ p. next p (spec_changed s.plan)) (ignored_phase _ i)) ∙ e)
                (MovedTo-update_phase env _ _ s))
          | inr i ↦ rw i (MovedTo-dispatch s.plan.status.phase q s e)
        ])
