-- ===== src/Controller/Reconcile/Seen.antt =====
-- The observed generation, which is written with each change of the phase.
use virt_advisor_operator.Base.{
  ℕ, false, ◌≡◌, ◌⊎◌, refl, sym, ap, ◌∙◌, inl, inr, arith, ◌!=◌, nat_eq,
}
use virt_advisor_operator.Api.{PlanPhase}
use virt_advisor_operator.Kube.{Env, State, final}
use virt_advisor_operator.Controller.Steps.{Quiet, Moves}
use virt_advisor_operator.Controller.Quiet.Execution.{Follows-handle_in_progress_phase}
use virt_advisor_operator.Controller.Quiet.Inputs.{QuietRegistry}
use virt_advisor_operator.Controller.Reconcile.{reconcile, spec_changed}
use virt_advisor_operator.Controller.Reconcile.Machine.{All-Moves}
use virt_advisor_operator.Controller.Reconcile.Phases.{reachable, monitors, Follows-reconcile}
use virt_advisor_operator.Profiles.{Registry}

abbrev Unmoved : State → State → Type 0
Unmoved s t =
    (t.plan.status.phase ≡ s.plan.status.phase)
    × (t.plan.status.observed_generation ≡ s.plan.status.observed_generation)

abbrev Seen : State → State → Type 0
Seen s t =
    (t.plan.generation ≡ s.plan.generation)
    × (Unmoved s t ⊎ (t.plan.status.observed_generation ≡ t.plan.generation))

Seen-chain : (s t u : State) → Seen s t → Seen t u → Seen s u
Seen-chain s t u p q = (
  q.0 ∙ p.0,
  elim q.1 [
    | inl (a, b) ↦ elim p.1 [ inl (c, d) ↦ inl (a ∙ c, b ∙ d) | inr e ↦ inr (b ∙ (e ∙ sym q.0)) ]
    | inr e ↦ inr e
  ],
)

same_plan : (s t : State) → t.plan ≡ s.plan → Seen s t
same_plan s t e = (
  ap (λ c. c.generation) e,
  inl (ap (λ c. c.status.phase) e, ap (λ c. c.status.observed_generation) e),
)

pub same_number : (a b : ℕ) → a ≡ b → (a != b) ≡ false
same_number a b e = ground (arith, nat_eq.equal_iff a b)

Seen-Quiet : Quiet Seen
Seen-Quiet = record {
  order = record { same = λ s. (refl, inl (refl, refl)); chain = Seen-chain };
  reading = λ s t r. same_plan s t r.0;
  writing = λ s status p g c. (refl, inl (p, g));
  marking = λ s t type status reason message e. (refl, inl (refl, refl));
}

Seen-Moves : (p : PlanPhase) → Moves Seen p
Seen-Moves p s t message = (refl, inr refl)

module _ (env : Env) (registry : Registry) (profiles : QuietRegistry registry) where
  follows : (s : State) → Seen s (final (reconcile env registry s))
  follows s =
      Follows-reconcile Seen-Quiet env registry profiles s
        (All-Moves Seen Seen-Moves (reachable s.plan.spec.action s.plan.status.phase))
        (λ acts runs moves.
          Follows-handle_in_progress_phase Seen-Quiet (λ t u e h. same_plan t u e) env moves.0
            moves.1.0 moves.1.1.0 moves.1.1.1.0)
        (λ acts watched.
          monitors Seen-Quiet env registry profiles (λ s t. (refl, inl (refl, refl))))

  -- Let every profile build its items from reads and dry runs. Then a reconciliation leaves the
  -- phase and the observed generation as they are, or ends with a plan whose observed generation is
  -- its generation, so that its spec counts as unchanged.
  pub reconcile-Seen :
      (s : State)
      → let t = final (reconcile env registry s) in
        ((t.plan.status.phase ≡ s.plan.status.phase)
          × (t.plan.status.observed_generation ≡ s.plan.status.observed_generation))
        ⊎ (spec_changed t.plan ≡ false)
  unfolding spec_changed
  reconcile-Seen s = elim (follows s).1 [ inl h ↦ inl h | inr e ↦ inr (same_number _ _ e) ]
