-- ===== src/Controller/Runs/Life.antt =====
-- Any sequence of reconciliations and edits of the spec, and what holds along it.
use virt_advisor_operator.Base.{ℕ, [], ◌≡◌, ◌⊎◌, sym, subst, inl, inr, Memᴰ, arith, ◌≤◌, ◌<◌}
use virt_advisor_operator.Api.{Config, Spec}
use virt_advisor_operator.Kube.{Env, State, final}
use virt_advisor_operator.Kube.Applied.{sent}
use virt_advisor_operator.Conditions.Distinct.{
  Distinct, set_condition-Distinct, phase_conditions-Distinct, Distinct-map,
}
use virt_advisor_operator.Profiles.{Registry}
use virt_advisor_operator.Controller.Completed.{freshen}
use virt_advisor_operator.Controller.Completed.Fresh.{freshen-one}
use virt_advisor_operator.Controller.Quiet.Inputs.{QuietRegistry}
use virt_advisor_operator.Controller.Reconcile.{reconcile}
use virt_advisor_operator.Controller.Runs.Agreement.{Agrees, Agrees-Stable}
use virt_advisor_operator.Controller.Runs.Preserved.{reconcile-Inv}
use virt_advisor_operator.Controller.Runs.Stable.{Stable, Inv}

module _ (env : Env) (registry : Registry) where
  abbrev after : State → State
  after s = final (reconcile env registry s)

  -- A reconciliation, after which the API server hands out the object in memory or any that was ever sent
  -- in a status update: an update may fail, and a cached object may be stale. Or an edit of the spec,
  -- which the API server counts.
  pub data Step : State → State → Type 0 where
    reconciled :
        (s : State) (c : Config)
        → (c ≡ (after s).plan) ⊎ Memᴰ c (sent (after s).history)
        → Step s (record (after s) { plan = c })
    edited :
        (s : State) (spec : Spec) (generation : ℕ)
        → s.plan.generation < generation
        → Step s (record s { plan = record s.plan { spec = spec; generation = generation } })

  pub data Run (s : State) : State → Type 0 where
    here : Run s s
    next : {t u : State} → Run s t → Step t u → Run s u

-- Conditions of distinct types that agree with the phase, and an observed generation that there was.
abbrev pub WellFormed : Config → Type 0
WellFormed c =
    Distinct c.status.conditions
    × Agrees c.status.phase c.status.conditions
    × (c.status.observed_generation ≤ c.generation)

WellFormed-Stable : Stable WellFormed
WellFormed-Stable = record {
  plain = λ c status p g k h.
      (subst Distinct (sym k) h.0, Agrees-Stable.plain c status p g k h.1, rw g h.2);
  marks = λ c t type status reason message e h. (
    set_condition-Distinct t type status reason message c.status.conditions h.0,
    Agrees-Stable.marks c t type status reason message e h.1,
    h.2,
  );
  moves = λ c p t message h. (
    phase_conditions-Distinct t p message c.status.conditions h.0,
    Agrees-Stable.moves c p t message h.1,
    omega arith,
  );
  freshens = λ c t e h. (
    Distinct-map (freshen t) (λ d. (freshen-one t d).1) c.status.conditions h.0,
    Agrees-Stable.freshens c t e h.1,
    h.2,
  );
}

module _ (env : Env) (registry : Registry) (profiles : QuietRegistry registry) where
  Step-Inv : {s t : State} → Step env registry s t → Inv WellFormed s → Inv WellFormed t
  Step-Inv (reconciled s c (inl e)) h =
      let k = reconcile-Inv WellFormed-Stable env registry profiles s h in
      (subst WellFormed (sym e) k.0, k.1)
  Step-Inv (reconciled s c (inr m)) h =
      let k = reconcile-Inv WellFormed-Stable env registry profiles s h in (k.1 c m, k.1)
  Step-Inv (edited s spec generation l) h = ((h.0.0, h.0.1, omega (arith, h.0.2)), h.1)

  -- Let every profile build its items from reads and dry runs. From a VirtPlatformConfig that is well-formed, as a
  -- new one is, every sequence of reconciliations and edits leads to a well-formed one, whatever the
  -- API server answers, and every object sent in a status update was well-formed.
  pub Run-WellFormed :
      {s t : State}
      → Run env registry s t
      → WellFormed s.plan
      → sent s.history ≡ []
      → WellFormed t.plan × ((c : Config) → Memᴰ c (sent t.history) → WellFormed c)
  Run-WellFormed here h e = (h, λ c m. elim (subst (Memᴰ c) e m) [ ])
  Run-WellFormed (next run step) h e = Step-Inv step (Run-WellFormed run h e)
