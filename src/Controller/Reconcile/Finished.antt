-- ===== src/Controller/Reconcile/Finished.antt =====
-- A plan whose execution is over applies nothing in a reconciliation, in no phase.
use virt_advisor_operator.Base.{◌≡◌, ◌≢◌, ◌⊎◌, refl, ap, ◌∙◌, inl, inr, arith, if_false}
use virt_advisor_operator.Api.{PlanPhase, PlanAction, action_eq}
use virt_advisor_operator.Kube.{Env, State, Outcome, done, fail, M, final, ◌>>=◌, return, reads}
use virt_advisor_operator.Kube.Applied.{applied}
use virt_advisor_operator.Profiles.{Registry}
use virt_advisor_operator.Controller.InProgress.{handle_in_progress_phase}
use virt_advisor_operator.Controller.InProgress.Finished.{
  Finished, handle_in_progress_phase-Finished,
}
use virt_advisor_operator.Controller.Quiet.Inputs.{QuietRegistry}
use virt_advisor_operator.Controller.Reconcile.{
  Requeue, no_requeue, simply, is_ignored, dispatch, act, resumed, reconcile,
}
use virt_advisor_operator.Controller.Reconcile.Machine.{reconcile-NoApply}
use virt_advisor_operator.Controller.Reconcile.Stuck.{acts_on}

in_progress_or_not : (p : PlanPhase) → (p ≡ PlanPhase.in_progress) ⊎ (p ≢ PlanPhase.in_progress)
in_progress_or_not PlanPhase.in_progress = inl refl
in_progress_or_not _ = inr (λ e. ground arith)

ignore_or_not : (a : PlanAction) → (a ≡ PlanAction.ignore) ⊎ (a ≢ PlanAction.ignore)
ignore_or_not PlanAction.ignore = inl refl
ignore_or_not _ = inr (λ e. ground arith)

ended :
    (o : Outcome (Unit {0}))
    → final {A = Requeue} (elim o [ done a t ↦ done no_requeue t | fail e t ↦ fail e t ]) ≡ final o
unfolding final
ended (done a t) = refl
ended (fail e t) = refl

pub final-simply : (m : M (Unit {0})) (s : State) → final (simply m s) ≡ final (m s)
unfolding simply ◌>>=◌ return
final-simply m s = ended (m s)

module _ (env : Env) (registry : Registry) where
  executing :
      (s : State)
      → s.plan.spec.action ≢ PlanAction.ignore
      → s.plan.status.phase ≡ PlanPhase.in_progress
      → final (reconcile env registry s) ≡ final (handle_in_progress_phase env s)
  unfolding reconcile act resumed dispatch ◌>>=◌ reads
  executing s acts phase =
      ap {A = M Requeue} (λ m. final (m s)) (if_false _ _ (acts_on s.plan.spec.action acts))
      ∙ ap {A = M Requeue} (λ m. final (m s)) (if_false _ _ (ap is_ignored phase))
      ∙ ap (λ q. final (dispatch env registry q s.plan s)) phase
      ∙ final-simply (handle_in_progress_phase env) s

  -- Let every profile build its items from reads and dry runs, and the execution of every item of
  -- the plan be over: each is Completed or Failed. Then a reconciliation applies no object, in every
  -- phase, with every action and whatever the API server answers.
  pub reconcile-Finished :
      QuietRegistry registry
      → (s : State) → Finished s.plan.status.items
      → applied (final (reconcile env registry s)).history ≡ applied s.history
  reconcile-Finished profiles s over = elim (in_progress_or_not s.plan.status.phase) [
    | inl phase ↦ elim (ignore_or_not s.plan.spec.action) [
      | inl e ↦ reconcile-NoApply env registry profiles s (inl e)
      | inr acts ↦
          ap (λ t. applied t.history) (executing s acts phase)
          ∙ (handle_in_progress_phase-Finished env s over).1
    ]
    | inr other ↦ reconcile-NoApply env registry profiles s (inr other)
  ]
