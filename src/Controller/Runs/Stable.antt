-- ===== src/Controller/Runs/Stable.antt =====
-- The invariants of the VirtPlatformConfig that every write of the reconciler keeps: of the object in
-- memory, and of each object that was sent in a status update.
use virt_advisor_operator.Base.{
  ℕ, String, true, ◌≡◌, refl, sym, ap, subst, ◌∙◌, inl, inr, Memᴰ, map,
}
use virt_advisor_operator.Api.{Config, Status, PlanPhase, action_eq, ConditionStatus}
use virt_advisor_operator.Kube.{State}
use virt_advisor_operator.Kube.Applied.{Sends, sent}
use virt_advisor_operator.Conditions.{set_condition, phase_conditions}
use virt_advisor_operator.Controller.Completed.{freshen}
use virt_advisor_operator.Controller.Steps.{Quiet, Moves, is_marker}
use virt_advisor_operator.Controller.Reconcile.Phases.{is_completed}

-- The object with another status.
abbrev pub stated : Config → Status → Config
stated c status = record c { status = status }

-- What each kind of write does to the object.
pub record Stable (I : Config → Type 0) : Type 0 where
  pub plain :
      (c : Config) (status : Status)
      → status.phase ≡ c.status.phase
      → status.observed_generation ≡ c.status.observed_generation
      → status.conditions ≡ c.status.conditions
      → I c
      → I (stated c status)
  pub marks :
      (c : Config) (t : ℕ) (type : String) (status : ConditionStatus) (reason message : String)
      → is_marker type ≡ true
      → I c
      → I (
          stated c (record c.status {
            conditions = set_condition t type status reason message c.status.conditions;
          }))
  pub moves :
      (c : Config) (p : PlanPhase) (t : ℕ) (message : String)
      → I c
      → I (
          stated c (record c.status {
            phase = p;
            observed_generation = c.generation;
            conditions = phase_conditions t p message c.status.conditions;
          }))
  pub freshens :
      (c : Config) (t : ℕ)
      → is_completed c.status.phase ≡ true
      → I c
      → I (stated c (record c.status { conditions = map (freshen t) c.status.conditions }))

-- The invariant holds of the object in memory and of all that were sent.
abbrev pub Inv : (Config → Type 0) → State → Type 0
Inv I s = I s.plan × ((c : Config) → Memᴰ c (sent s.history) → I c)

module _ (I : Config → Type 0) where
  abbrev pub Keeps : State → State → Type 0
  Keeps s t = Inv I s → Inv I t

  pub Keeps-Sends : (s t : State) → t.plan ≡ s.plan → Sends s t → Keeps s t
  Keeps-Sends s t e f h =
      (subst I (sym e) h.0, (λ c m. elim (f c m) [ inl k ↦ h.1 c k | inr q ↦ subst I (sym q) h.0 ]))

  -- The invariant is kept, and the phase.
  abbrev pub Stays : State → State → Type 0
  Stays s t = (t.plan.status.phase ≡ s.plan.status.phase) × Keeps s t

module _ {I : Config → Type 0} (stable : Stable I) where
  pub Keeps-Quiet : Quiet (Keeps I)
  Keeps-Quiet = record {
    order = record { same = λ s h. h; chain = λ s t u p q h. q (p h) };
    reading = λ s t r. Keeps-Sends I s t r.0 r.2;
    writing = λ s status p g c h. (stable.plain s.plan status p g c h.0, h.1);
    marking = λ s t type status reason message e h.
        (stable.marks s.plan t type status reason message e h.0, h.1);
  }

  pub Keeps-Moves : (p : PlanPhase) → Moves (Keeps I) p
  Keeps-Moves p s t message h = (stable.moves s.plan p t message h.0, h.1)

  pub Stays-Quiet : Quiet (Stays I)
  Stays-Quiet = record {
    order = record {
      same = λ s. (refl, λ h. h);
      chain = λ s t u p q. (q.0 ∙ p.0, λ h. q.1 (p.1 h));
    };
    reading = λ s t r. (ap (λ c. c.status.phase) r.0, Keeps-Sends I s t r.0 r.2);
    writing = λ s status p g c. (p, λ h. (stable.plain s.plan status p g c h.0, h.1));
    marking = λ s t type status reason message e.
        (refl, λ h. (stable.marks s.plan t type status reason message e h.0, h.1));
  }
