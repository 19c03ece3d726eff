-- ===== src/Controller/Runs/Monitored.antt =====
-- handleCompletedPhase keeps a stable invariant: it runs ensureCompletedPhaseConditions only in the phases
-- that it is called for.
use virt_advisor_operator.Base.{ℕ, String, true, List, ◌≡◌, sym, subst, map}
use virt_advisor_operator.Api.{Config, Item, Status, PlanPhase}
use virt_advisor_operator.Kube.{Env, Outcome, done, fail, M, final, ◌>>=◌, writes}
use virt_advisor_operator.Kube.Effects.{Follows}
use virt_advisor_operator.Kube.Endings.{Ending, Ends, Ends-bind, ending_rules}
use virt_advisor_operator.Profiles.{Registry}
use virt_advisor_operator.Controller.{set_status, update_phase}
use virt_advisor_operator.Controller.Completed.{
  freshen, ensure_completed_phase_conditions, completed_drift_stage, completed_health_stage,
  completed_input_stage, completed_current_stage, upgraded_items, handle_completed_phase,
}
use virt_advisor_operator.Controller.Quiet.{Follows-update_phase, effect_rules}
use virt_advisor_operator.Controller.Quiet.Stages.{Follows-monitor_items}
use virt_advisor_operator.Controller.Quiet.Inputs.{Follows-hco_changed, QuietRegistry}
use virt_advisor_operator.Controller.Reconcile.Phases.{is_completed}
use virt_advisor_operator.Controller.Reconcile.Quiet.{Follows-with_new_logic}
use virt_advisor_operator.Controller.Runs.Stable.{
  Stable, Inv, Keeps, Keeps-Quiet, Keeps-Moves, Stays, Stays-Quiet,
}

-- The last write of a run may be one that only a completed phase allows.
abbrev pub monitored : (Config → Type 0) → Ending
monitored I = record {
  Pre = λ s. is_completed s.plan.status.phase ≡ true;
  Kept = Stays I;
  Post = Keeps I;
  carries = λ s t r p. subst (λ q. is_completed q ≡ true) (sym r.0) p;
  absorbs = λ s t u r k i. k (r.1 i);
  stops = λ s t r. r.1;
}

module _ {I : Config → Type 0} (stable : Stable I) where
  Ends-keeps {ℓ} : {A : Type ℓ} (m : M A) → Follows (Keeps I) m → Ends (monitored I) m
  Ends-keeps m f = record { at = λ s p. f.at s }

  module _ {ℓ κ} {A : Type ℓ} {B : Type κ} where
    followed :
        (o : Outcome A) (k : A → M B)
        → Inv I (final o)
        → ((a : A) → Follows (Keeps I) (k a))
        → Inv I (final (elim o [ done a t ↦ k a t | fail e t ↦ fail e t ]))
    unfolding final
    followed (done a t) k i f = (f a).at t i
    followed (fail e t) k i f = i

    pub Ends-then :
        (m : M A) (k : A → M B)
        → Ends (monitored I) m
        → ((a : A) → Follows (Keeps I) (k a))
        → Ends (monitored I) (m >>= k)
    unfolding ◌>>=◌
    Ends-then m k em f = record { at = λ s p i. followed (m s) k (em.at s p i) f }

  module _ (env : Env) where
    Ends-update_phase :
        (p : PlanPhase) (message : String) → Ends (monitored I) (update_phase env p message)
    Ends-update_phase p message =
        Ends-keeps _
          (Follows-update_phase (Keeps-Quiet stable) env p message (Keeps-Moves stable p))

    Ends-freshen :
        (t : ℕ)
        → Ends
            (monitored I)
            (set_status (λ s. record s { conditions = map (freshen t) s.conditions }))
    unfolding set_status writes final
    Ends-freshen t = record { at = λ s p i. (stable.freshens s.plan t p i.0, i.1) }

    Ends-ensure_completed : Ends (monitored I) (ensure_completed_phase_conditions env)
    unfolding ensure_completed_phase_conditions
    Ends-ensure_completed =
        let quiet = Stays-Quiet stable in
        let keeps = Keeps-Quiet stable in
        Ends-bind _ _ (search effect_rules) λ t.
          Ends-bind _ _ (search effect_rules)
            λ conditions. Ends-then _ _ (Ends-freshen t) (λ _. search effect_rules)

    ruleset ending = (effect_rules, ending_rules, Ends-update_phase)

    Ends-completed_drift_stage : Ends (monitored I) (completed_drift_stage env)
    unfolding completed_drift_stage
    Ends-completed_drift_stage =
        let quiet = Stays-Quiet stable in search (ending, Ends-ensure_completed) depth 24

    Ends-completed_health_stage : Ends (monitored I) (completed_health_stage env)
    unfolding completed_health_stage
    Ends-completed_health_stage =
        let quiet = Stays-Quiet stable in
        search (ending, Follows-monitor_items, Ends-completed_drift_stage) depth 24

    module _ (registry : Registry) (profiles : QuietRegistry registry) where
      Ends-completed_input_stage : Ends (monitored I) (completed_input_stage env registry)
      unfolding completed_input_stage
      Ends-completed_input_stage =
          let quiet = Stays-Quiet stable in
          search (ending, Follows-hco_changed, Ends-completed_health_stage) depth 24

      Ends-completed_current_stage : Ends (monitored I) (completed_current_stage env registry)
      unfolding completed_current_stage
      Ends-completed_current_stage =
          let quiet = Stays-Quiet stable in search (ending, Ends-completed_input_stage) depth 24

      Ends-upgraded_items :
          (status : Status) (items : List Item)
          → Ends (monitored I) (upgraded_items env registry status items)
      unfolding upgraded_items
      Ends-upgraded_items status items = let quiet = Stays-Quiet stable in search ending depth 24

      pub Ends-handle_completed_phase : Ends (monitored I) (handle_completed_phase env registry)
      unfolding handle_completed_phase
      Ends-handle_completed_phase =
          let quiet = Stays-Quiet stable in
          search (ending, Follows-with_new_logic, Ends-completed_current_stage, Ends-upgraded_items)
            depth 24
