-- ===== src/Controller/Review/Approval.antt =====
-- A plan under review is executed only when the action is Apply.
use virt_advisor_operator.Base.{
  [], ◌∷◌, ◌≡◌, ◌≢◌, ◌⊎◌, inl, inr, ◌==◌, Bool-cases, if_true, if_false,
}
use virt_advisor_operator.Api.{PlanPhase, PlanAction, action_eq, action_beq_iff, Config}
use virt_advisor_operator.Kube.{Env, State, final, ◌>>=◌, reads, return}
use virt_advisor_operator.Kube.Effects.{Follows, Follows-return}
use virt_advisor_operator.Controller.Steps.{Quiet, Moves}
use virt_advisor_operator.Profiles.{Registry}
use virt_advisor_operator.Controller.Quiet.{effect_rules, Follows-update_phase}
use virt_advisor_operator.Controller.Quiet.Inputs.{Follows-hco_changed}
use virt_advisor_operator.Controller.Review.{
  approval, acknowledgment, resolved, reviewed, handle_review_required_phase,
}
use virt_advisor_operator.Controller.Reconcile.Machine.{PhaseIn-Quiet, PhaseIn-Moves}

module _ {R : State → State → Type 0} (quiet : Quiet R) (env : Env) (plan : Config)
    (moves : plan.spec.action ≡ PlanAction.apply → Moves R PlanPhase.in_progress) where
  Follows-approval : Follows R (approval env plan)
  unfolding approval
  Follows-approval = elim (Bool-cases (plan.spec.action == PlanAction.apply)) [
    | inl e ↦ rw (if_true _ (return tt) e) (
        Follows-update_phase quiet env _ _
          (moves ((action_beq_iff plan.spec.action PlanAction.apply).0 e)))
    | inr e ↦ rw (if_false _ (return tt) e) (Follows-return quiet.order tt)
  ]

  Follows-acknowledgment : Follows R (acknowledgment env plan)
  unfolding acknowledgment
  Follows-acknowledgment = search (effect_rules, Follows-approval) depth 16

  pub Follows-reviewed :
      (registry : Registry) → Moves R PlanPhase.pending → Follows R (reviewed env registry plan)
  unfolding reviewed resolved
  Follows-reviewed registry back =
      search (effect_rules, Follows-approval, Follows-acknowledgment, Follows-hco_changed) depth 24

module _ (env : Env) (registry : Registry) where
  -- Unless the action is Apply, the handler of ReviewRequired leaves the phase as it is, or moves to
  -- Pending.
  pub handle_review_required_phase-approved :
      (s : State)
      → s.plan.spec.action ≢ PlanAction.apply
      → let t = final (handle_review_required_phase env registry s) in
        (t.plan.status.phase ≡ s.plan.status.phase) ⊎ (t.plan.status.phase ≡ PlanPhase.pending)
  unfolding handle_review_required_phase ◌>>=◌ reads
  handle_review_required_phase-approved s h =
      let ps = PlanPhase.pending ∷ [] in
      let quiet = PhaseIn-Quiet ps in
      elim ((Follows-reviewed quiet env s.plan (λ e. absurd (h e)) registry
          (PhaseIn-Moves ps ps (λ p o. o)).0).at
        s) [ inl e ↦ inl e | inr (inl e) ↦ inr e | inr (inr e) ↦ absurd e ]
