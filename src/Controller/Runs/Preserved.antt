-- ===== src/Controller/Runs/Preserved.antt =====
-- A reconciliation keeps a stable invariant.
use virt_advisor_operator.Base.{true, false, ◌≡◌, ◌≢◌, refl, inl, inr, arith, ◌==◌, Bool-cases}
use virt_advisor_operator.Api.{Config, PlanPhase, PlanAction, action_eq}
use virt_advisor_operator.Kube.{Env, State, M, final, ◌>>=◌, reads}
use virt_advisor_operator.Profiles.{Registry}
use virt_advisor_operator.Controller.Quiet.{effect_rules}
use virt_advisor_operator.Controller.Quiet.Execution.{Follows-handle_in_progress_phase}
use virt_advisor_operator.Controller.Quiet.Inputs.{QuietRegistry}
use virt_advisor_operator.Controller.Reconcile.{
  reconcile, act, resumed, dispatch, simply, is_ignored,
}
use virt_advisor_operator.Controller.Reconcile.Machine.{All-Moves}
use virt_advisor_operator.Controller.Reconcile.Phases.{is_completed, reachable, Follows-reconcile}
use virt_advisor_operator.Kube.Endings.{Ends}
use virt_advisor_operator.Controller.Runs.Monitored.{
  monitored, Ends-then, Ends-handle_completed_phase,
}
use virt_advisor_operator.Controller.Runs.Stable.{
  Stable, Inv, Keeps, Keeps-Sends, Keeps-Quiet, Keeps-Moves,
}

module _ {I : Config → Type 0} (stable : Stable I) (env : Env) (registry : Registry)
    (profiles : QuietRegistry registry) where
  Ends-simply : (m : M (Unit {0})) → Ends (monitored I) m → Ends (monitored I) (simply m)
  unfolding simply
  Ends-simply m em =
      let quiet = Keeps-Quiet stable in Ends-then stable m _ em (λ _. search effect_rules)

  Ends-dispatch :
      (p : PlanPhase) (plan : Config)
      → is_completed p ≡ true
      → Ends (monitored I) (dispatch env registry p plan)
  unfolding dispatch
  Ends-dispatch PlanPhase.completed plan e =
      Ends-simply _ (Ends-handle_completed_phase stable env registry profiles)
  Ends-dispatch PlanPhase.completed_with_errors plan e =
      Ends-simply _ (Ends-handle_completed_phase stable env registry profiles)
  Ends-dispatch _ plan e = ground arith

  not_ignored : (p : PlanPhase) → is_completed p ≡ true → is_ignored p ≡ false
  not_ignored PlanPhase.ignored e = ground arith
  not_ignored _ e = refl

  Ends-act :
      (plan : Config)
      → plan.spec.action ≢ PlanAction.ignore
      → is_completed plan.status.phase ≡ true
      → Ends (monitored I) (act env registry plan)
  unfolding act resumed
  Ends-act plan acts e = elim (Bool-cases (plan.spec.action == PlanAction.ignore)) [
    | inl i ↦ absurd (acts (ground arith))
    | inr i ↦ rw i (rw (not_ignored plan.status.phase e) (Ends-dispatch plan.status.phase plan e))
  ]

  general :
      (s : State)
      → (s.plan.spec.action ≢ PlanAction.ignore → is_completed s.plan.status.phase ≡ true → ⊥)
      → Keeps I s (final (reconcile env registry s))
  general s other =
      Follows-reconcile (Keeps-Quiet stable) env registry profiles s
        (All-Moves (Keeps I) (Keeps-Moves stable)
          (reachable s.plan.spec.action s.plan.status.phase))
        (λ acts runs moves.
          Follows-handle_in_progress_phase (Keeps-Quiet stable) (Keeps-Sends I) env moves.0
            moves.1.0 moves.1.1.0 moves.1.1.1.0)
        (λ acts watched. absurd (other acts watched))

  -- Whatever the API server answers and whether or not the reconciliation returns an error, the
  -- invariant holds afterwards of the object in memory and of each that was sent.
  pub reconcile-Inv : (s : State) → Inv I s → Inv I (final (reconcile env registry s))
  unfolding reconcile ◌>>=◌ reads
  reconcile-Inv s h = elim (Bool-cases (is_completed s.plan.status.phase)) [
    | inl e ↦ elim (Bool-cases (s.plan.spec.action == PlanAction.ignore)) [
      | inl i ↦ general s (λ acts q. acts (ground arith)) h
      | inr i ↦ (Ends-act s.plan (ground arith) e).at s e h
    ]
    | inr e ↦ general s (λ acts q. ground arith) h
  ]
