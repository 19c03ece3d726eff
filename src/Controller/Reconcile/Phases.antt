-- ===== src/Controller/Reconcile/Phases.antt =====
-- The moves between phases that one reconciliation can make, and the rule that derives a relation
-- between the states before and after it from its handlers.
use virt_advisor_operator.Base.{
  List, [], ◌∷◌, ◌≡◌, ◌≢◌, refl, Bool, true, false, Bool-cases, inl, inr, ◌==◌, arith, All,
}
use virt_advisor_operator.Api.{PlanPhase, PlanAction, action_eq, Config}
use virt_advisor_operator.Kube.{Env, State, M, final, ◌>>=◌, reads}
use virt_advisor_operator.Kube.Effects.{Follows}
use virt_advisor_operator.Controller.Steps.{Quiet, Moves, Freshens}
use virt_advisor_operator.Profiles.{Registry}
use virt_advisor_operator.Controller.Drafting.{handle_pending_phase}
use virt_advisor_operator.Controller.Completed.{handle_completed_phase}
use virt_advisor_operator.Controller.InProgress.{handle_in_progress_phase}
use virt_advisor_operator.Controller.Reconcile.{
  dispatch, act, reconcile, resumed, simply, is_ignored,
}
use virt_advisor_operator.Controller.Quiet.{Follows-update_phase, effect_rules}
use virt_advisor_operator.Controller.Quiet.Inputs.{QuietRegistry}
use virt_advisor_operator.Controller.Quiet.Stages.{Follows-handle_drifted_phase}
use virt_advisor_operator.Controller.Reconcile.Quiet.{
  Follows-handle_completed_phase, Follows-handle_completed_with_upgrade,
  Follows-handle_drafting_phase, Follows-handle_review_required, Follows-prerequisite_failed,
  Follows-handle_ignore,
}

-- The phases that one reconciliation can move to from a phase, unless the action is Ignore.
abbrev pub targets : PlanPhase → List PlanPhase
targets PlanPhase.unset = PlanPhase.drafting ∷ []
targets PlanPhase.pending = PlanPhase.drafting ∷ []
targets PlanPhase.drafting =
    PlanPhase.completed ∷ PlanPhase.in_progress ∷ PlanPhase.review_required
    ∷ PlanPhase.prerequisite_failed ∷ PlanPhase.failed ∷ []
targets PlanPhase.review_required = PlanPhase.in_progress ∷ PlanPhase.pending ∷ []
targets PlanPhase.in_progress =
    PlanPhase.failed ∷ PlanPhase.completed_with_errors ∷ PlanPhase.drifted ∷ PlanPhase.completed
    ∷ []
targets PlanPhase.completed =
    PlanPhase.drafting ∷ PlanPhase.in_progress ∷ PlanPhase.drifted
    ∷ PlanPhase.completed_with_upgrade ∷ []
targets PlanPhase.completed_with_errors =
    PlanPhase.drafting ∷ PlanPhase.in_progress ∷ PlanPhase.drifted
    ∷ PlanPhase.completed_with_upgrade ∷ []
targets PlanPhase.completed_with_upgrade = PlanPhase.pending ∷ PlanPhase.completed ∷ []
targets PlanPhase.drifted = PlanPhase.pending ∷ PlanPhase.completed ∷ PlanPhase.in_progress ∷ []
targets PlanPhase.prerequisite_failed = PlanPhase.pending ∷ PlanPhase.prerequisite_failed ∷ []
targets PlanPhase.failed = PlanPhase.pending ∷ []
targets PlanPhase.ignored = PlanPhase.pending ∷ []
targets (PlanPhase.unknown _) = PlanPhase.pending ∷ []

-- The phases of handleCompletedPhase.
abbrev pub is_completed : PlanPhase → Bool
is_completed PlanPhase.completed = true
is_completed PlanPhase.completed_with_errors = true
is_completed _ = false

-- Under action Ignore the one target is Ignored.
abbrev pub reachable : PlanAction → PlanPhase → List PlanPhase
reachable PlanAction.ignore p = PlanPhase.ignored ∷ []
reachable _ p = targets p

module _ (R : State → State → Type 0) where
  resumes :
      (p : PlanPhase) → is_ignored p ≡ true → All (Moves R) (targets p) → Moves R PlanPhase.pending
  resumes PlanPhase.ignored e m = m.0
  resumes _ e m = ground arith

  ignores :
      (a : PlanAction) (p : PlanPhase)
      → (a == PlanAction.ignore) ≡ true
      → All (Moves R) (reachable a p)
      → Moves R PlanPhase.ignored
  ignores PlanAction.ignore p e m = m.0
  ignores _ p e m = ground arith

  acts_on :
      (a : PlanAction) (p : PlanPhase)
      → (a == PlanAction.ignore) ≡ false
      → All (Moves R) (reachable a p)
      → All (Moves R) (targets p)
  acts_on PlanAction.ignore p e m = ground arith
  acts_on _ p e m = m

module _ {R : State → State → Type 0} (quiet : Quiet R) (env : Env) (registry : Registry)
    (profiles : QuietRegistry registry) where
  -- What is asked of the handler of InProgress.
  abbrev Executes : Type 0
  Executes =
      All (Moves R) (targets PlanPhase.in_progress) → Follows R (handle_in_progress_phase env)

  -- What is asked of the handler of Completed and CompletedWithErrors.
  abbrev Monitors : Type 0
  Monitors =
      All (Moves R) (targets PlanPhase.completed) → Follows R (handle_completed_phase env registry)

  Follows-simply : (m : M (Unit {0})) → Follows R m → Follows R (simply m)
  unfolding simply
  Follows-simply m fm = search effect_rules depth 8

  ruleset handlers = (
    effect_rules, Follows-simply, Follows-handle_drafting_phase, Follows-handle_review_required,
    Follows-handle_completed_with_upgrade, Follows-handle_drifted_phase,
    Follows-prerequisite_failed,
  )

  Follows-dispatch :
      (phase : PlanPhase) (plan : Config)
      → All (Moves R) (targets phase)
      → (phase ≡ PlanPhase.in_progress → Executes)
      → (is_completed phase ≡ true → Monitors)
      → Follows R (dispatch env registry phase plan)
  unfolding dispatch handle_pending_phase
  Follows-dispatch PlanPhase.in_progress plan moves run watch = Follows-simply _ (run refl moves)
  Follows-dispatch PlanPhase.completed plan moves run watch = Follows-simply _ (watch refl moves)
  Follows-dispatch PlanPhase.completed_with_errors plan moves run watch =
      Follows-simply _ (watch refl moves)
  Follows-dispatch _ plan moves run watch = search handlers depth 24

  Follows-resumed :
      (plan : Config)
      → All (Moves R) (targets plan.status.phase)
      → (plan.status.phase ≡ PlanPhase.in_progress → Executes)
      → (is_completed plan.status.phase ≡ true → Monitors)
      → Follows R (resumed env registry plan)
  unfolding resumed
  Follows-resumed plan moves run watch = elim (Bool-cases (is_ignored plan.status.phase)) [
    | inl e ↦ rw e (
        Follows-simply _ (Follows-update_phase quiet env _ _ (resumes R plan.status.phase e moves)))
    | inr e ↦ rw e (Follows-dispatch plan.status.phase plan moves run watch)
  ]

  Follows-act :
      (plan : Config)
      → All (Moves R) (reachable plan.spec.action plan.status.phase)
      → (plan.spec.action ≢ PlanAction.ignore
          → plan.status.phase ≡ PlanPhase.in_progress
          → Executes)
      → (plan.spec.action ≢ PlanAction.ignore → is_completed plan.status.phase ≡ true → Monitors)
      → Follows R (act env registry plan)
  unfolding act
  Follows-act plan moves run watch = elim (Bool-cases (plan.spec.action == PlanAction.ignore)) [
    | inl e ↦ rw e (
        Follows-handle_ignore quiet env registry profiles
          (ignores R plan.spec.action plan.status.phase e moves) plan)
    | inr e ↦ rw e (
        Follows-resumed plan (acts_on R plan.spec.action plan.status.phase e moves)
          (run (ground arith)) (watch (ground arith)))
  ]

  pub Follows-reconcile :
      (s : State)
      → All (Moves R) (reachable s.plan.spec.action s.plan.status.phase)
      → (s.plan.spec.action ≢ PlanAction.ignore
          → s.plan.status.phase ≡ PlanPhase.in_progress
          → Executes)
      → (s.plan.spec.action ≢ PlanAction.ignore
          → is_completed s.plan.status.phase ≡ true
          → Monitors)
      → R s (final (reconcile env registry s))
  unfolding reconcile ◌>>=◌ reads
  Follows-reconcile s moves run watch = (Follows-act s.plan moves run watch).at s

  -- A relation that ensureCompletedPhaseConditions keeps needs no more of the handler of Completed.
  pub monitors : Freshens R → Monitors
  monitors fresh moves =
      Follows-handle_completed_phase quiet env registry profiles fresh moves.0 moves.1.0 moves.1.1.0
        moves.1.1.1.0
