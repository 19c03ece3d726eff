-- ===== src/Controller/Reconcile/Machine.antt =====
-- The phases as a state machine: what one reconciliation does to the phase, to the spec and to the
-- cluster, whatever the API server answers and whether or not it ends with an error.
use virt_advisor_operator.Base.{
  List, [], ◌∷◌, ◌≡◌, ◌≢◌, ◌⊎◌, refl, sym, ap, subst, ◌∙◌, inl, inr, All,
}
use virt_advisor_operator.Api.{PlanPhase, PlanAction}
use virt_advisor_operator.Kube.{Env, State, final}
use virt_advisor_operator.Kube.Applied.{applied, NoApply, NoApply-Reading}
use virt_advisor_operator.Controller.Steps.{Quiet, Quiet-writes, Moves}
use virt_advisor_operator.Profiles.{Registry}
use virt_advisor_operator.Controller.Reconcile.{reconcile}
use virt_advisor_operator.Controller.Quiet.Inputs.{QuietRegistry}
use virt_advisor_operator.Controller.Quiet.Execution.{Follows-handle_in_progress_phase}
use virt_advisor_operator.Controller.Reconcile.Phases.{reachable, monitors, Follows-reconcile}

-- The phase is as before, or one of the list.
abbrev pub OneOf : List PlanPhase → PlanPhase → Type 0
OneOf [] p = ⊥
OneOf (q ∷ qs) p = (p ≡ q) ⊎ OneOf qs p

abbrev pub PhaseIn : List PlanPhase → State → State → Type 0
PhaseIn ps s t = (t.plan.status.phase ≡ s.plan.status.phase) ⊎ OneOf ps t.plan.status.phase

pub PhaseIn-Quiet : (ps : List PlanPhase) → Quiet (PhaseIn ps)
PhaseIn-Quiet ps =
    Quiet-writes
      (record {
        order = record {
          same = λ s. inl refl;
          chain = λ s t u p q. elim q [
            | inl e ↦ (elim p [ inl f ↦ inl (e ∙ f) | inr o ↦ inr (subst (OneOf ps) (sym e) o) ])
            | inr o ↦ inr o
          ];
        };
        reading = λ s t r. inl (ap (λ c. c.status.phase) r.0);
      })
      (λ s status e. inl e)

pub PhaseIn-Moves :
    (ps qs : List PlanPhase)
    → ((p : PlanPhase) → OneOf qs p → OneOf ps p)
    → All (Moves (PhaseIn ps)) qs
PhaseIn-Moves ps [] h = tt
PhaseIn-Moves ps (q ∷ qs) h =
    ((λ s t message. inr (h q (inl refl))), PhaseIn-Moves ps qs (λ p o. h p (inr o)))

pub NoApply-Quiet : Quiet NoApply
NoApply-Quiet = Quiet-writes NoApply-Reading (λ s status e. refl)

abbrev SameSpec : State → State → Type 0
SameSpec s t =
    (t.plan.spec ≡ s.plan.spec)
    × (t.plan.generation ≡ s.plan.generation)
    × (t.plan.name ≡ s.plan.name)

same_plan : (s t : State) → t.plan ≡ s.plan → SameSpec s t
same_plan s t e = (ap (λ c. c.spec) e, ap (λ c. c.generation) e, ap (λ c. c.name) e)

SameSpec-Quiet : Quiet SameSpec
SameSpec-Quiet =
    Quiet-writes
      (record {
        order = record {
          same = λ s. (refl, refl, refl);
          chain = λ s t u p q. (q.0 ∙ p.0, q.1 ∙ p.1, q.2 ∙ p.2);
        };
        reading = λ s t r. same_plan s t r.0;
      })
      (λ s status e. (refl, refl, refl))

pub All-Moves :
    (R : State → State → Type 0)
    → ((p : PlanPhase) → Moves R p)
    → (ps : List PlanPhase) → All (Moves R) ps
All-Moves R h [] = tt
All-Moves R h (p ∷ ps) = (h p, All-Moves R h ps)

module _ (env : Env) (registry : Registry) (profiles : QuietRegistry registry) where
  -- Let every profile build its items from reads and dry runs. Then a reconciliation that starts
  -- outside of InProgress, or with action Ignore, applies no object to the cluster.
  pub reconcile-NoApply :
      (s : State)
      → (s.plan.spec.action ≡ PlanAction.ignore) ⊎ (s.plan.status.phase ≢ PlanPhase.in_progress)
      → applied (final (reconcile env registry s)).history ≡ applied s.history
  reconcile-NoApply s h =
      Follows-reconcile NoApply-Quiet env registry profiles s
        (All-Moves NoApply (λ p s t message. refl)
          (reachable s.plan.spec.action s.plan.status.phase))
        (λ acts runs. elim h [ inl e ↦ absurd (acts e) | inr other ↦ absurd (other runs) ])
        (λ acts watched. monitors NoApply-Quiet env registry profiles (λ s t. refl))

  -- Let every profile build its items from reads and dry runs. Then a reconciliation leaves the
  -- spec, the generation and the name of the VirtPlatformConfig as they are.
  pub reconcile-SameSpec :
      (s : State)
      → let t = final (reconcile env registry s) in
        (t.plan.spec ≡ s.plan.spec)
        × (t.plan.generation ≡ s.plan.generation)
        × (t.plan.name ≡ s.plan.name)
  reconcile-SameSpec s =
      Follows-reconcile SameSpec-Quiet env registry profiles s
        (All-Moves SameSpec (λ p s t message. (refl, refl, refl))
          (reachable s.plan.spec.action s.plan.status.phase))
        (λ acts runs moves.
          Follows-handle_in_progress_phase SameSpec-Quiet (λ t u e h. same_plan t u e) env moves.0
            moves.1.0 moves.1.1.0 moves.1.1.1.0)
        (λ acts watched. monitors SameSpec-Quiet env registry profiles (λ s t. (refl, refl, refl)))

  -- Let every profile build its items from reads and dry runs. Then the phase after a
  -- reconciliation is the phase before it, or one that `reachable` lists for that phase and the
  -- action: Ignored alone under action Ignore, else the targets of the phase.
  pub reconcile-OneOf :
      (s : State)
      → let t = final (reconcile env registry s) in
        (t.plan.status.phase ≡ s.plan.status.phase)
        ⊎ OneOf (reachable s.plan.spec.action s.plan.status.phase) t.plan.status.phase
  reconcile-OneOf s =
      let ps = reachable s.plan.spec.action s.plan.status.phase in
      Follows-reconcile (PhaseIn-Quiet ps) env registry profiles s (PhaseIn-Moves ps ps (λ p o. o))
        (λ acts runs moves.
          Follows-handle_in_progress_phase (PhaseIn-Quiet ps)
            (λ t u e h. inl (ap (λ c. c.status.phase) e)) env moves.0 moves.1.0 moves.1.1.0
            moves.1.1.1.0)
        (λ acts watched. monitors (PhaseIn-Quiet ps) env registry profiles (λ s t. inl refl))
