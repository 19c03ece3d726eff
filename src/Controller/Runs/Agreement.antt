-- ===== src/Controller/Runs/Agreement.antt =====
-- The conditions agree with the phase: that of the phase is True, and every other that belongs to a
-- phase alone is False.
use mathlib.Core.Option.{some-injective}
use virt_advisor_operator.Base.{
  ℕ, String, Bool, true, false, not, some, List, [], ◌∷◌, ◌≡◌, ◌⊎◌, refl, sym, ◌∙◌, inl, inr, arith,
  all, All, map, ◌==◌, string_eq, Bool-cases, if_true, if_false, ap, if◌then◌else◌,
}
use virt_advisor_operator.Api.{
  PlanPhase, phase_text, ConditionStatus, Condition, is_true, is_false, status_beq_iff,
}
use virt_advisor_operator.Conditions.{set_condition, phase_conditions}
use virt_advisor_operator.Conditions.Lookup.{status_of, status_of-set_condition}
use virt_advisor_operator.Conditions.Phases.{others, phase_conditions-exclusive}
use virt_advisor_operator.Controller.Completed.{freshen, is_stale}
use virt_advisor_operator.Controller.Completed.Fresh.{freshen-one}
use virt_advisor_operator.Controller.Steps.{is_marker}
use virt_advisor_operator.Controller.Reconcile.Phases.{is_completed}
use virt_advisor_operator.Controller.Runs.Stable.{Stable}

-- The condition that is True in a phase.
abbrev pub held : PlanPhase → List String
held PlanPhase.unset = []
held (PlanPhase.unknown _) = []
held p = phase_text p ∷ []

-- The conditions that are False in a phase. Completed is none of them in CompletedWithErrors, where
-- ensureCompletedPhaseConditions sets it.
abbrev pub denied : PlanPhase → List String
denied PlanPhase.unset = []
denied (PlanPhase.unknown _) = []
denied PlanPhase.completed_with_errors =
    "Ignored" ∷ "Drafting" ∷ "InProgress" ∷ "ReviewRequired" ∷ "Drifted" ∷ "PrerequisiteFailed" ∷ []
denied p = others p

abbrev Reads : ConditionStatus → List Condition → List String → Type 0
Reads v cs = All (λ k. status_of k cs ≡ some v)

abbrev pub Agrees : PlanPhase → List Condition → Type 0
Agrees p cs = Reads is_true cs (held p) × Reads is_false cs (denied p)

abbrev is_other : String → Bool
is_other k = not (is_marker k)

-- No marker belongs to a phase.
others_of : (p : PlanPhase) → (all is_other (held p) ≡ true) × (all is_other (denied p) ≡ true)
others_of PlanPhase.unset = (refl, refl)
others_of _ = ground arith

marked_as : (type k : String) → is_marker type ≡ true → is_other k ≡ true → (type == k) ≡ false
marked_as type k m o = ground (
  arith,
  string_eq.equal_iff type k,
  string_eq.equal_iff type "InputDependencyDrift",
  string_eq.equal_iff type "UpgradeAvailable",
  string_eq.equal_iff k "InputDependencyDrift",
  string_eq.equal_iff k "UpgradeAvailable",
)

both : (a b : Bool) → (if a then b else false) ≡ true → (a ≡ true) × (b ≡ true)
both a b = ground arith

module _ (v : ConditionStatus) (t : ℕ) (type : String) (status : ConditionStatus)
    (reason message : String) (marker : is_marker type ≡ true) (cs : List Condition) where
  Reads-mark :
      (ks : List String)
      → all is_other ks ≡ true
      → Reads v cs ks
      → Reads v (set_condition t type status reason message cs) ks
  Reads-mark [] o h = tt
  Reads-mark (k ∷ ks) o h = (
    status_of-set_condition k t type status reason message cs
        ∙ rw (marked_as type k marker (both _ _ o).0) h.0,
    Reads-mark ks (both _ _ o).1 h.1,
  )

-- Conditions that ensureCompletedPhaseConditions leaves alone.
Lasting : String → ConditionStatus → Type 0
Lasting k v = (c : Condition) → (c.type == k) ≡ true → c.status ≡ v → is_stale c ≡ false

false-Lasting : (k : String) → (k == "Completed") ≡ false → Lasting k is_false
unfolding Lasting is_stale
false-Lasting k o c e h = ground (
  arith,
  string_eq.equal_iff c.type k,
  string_eq.equal_iff c.type "Completed",
  string_eq.equal_iff k "Completed",
  status_beq_iff c.status is_true,
  status_beq_iff c.status is_false,
)

true-Lasting : (k : String) → (k ≡ "Completed") ⊎ (k ≡ "CompletedWithErrors") → Lasting k is_true
unfolding Lasting is_stale
true-Lasting k o c e h = elim o [
  | inl p ↦ rw ((string_eq.equal_iff c.type k).0 e ∙ p, h) refl
  | inr p ↦ rw ((string_eq.equal_iff c.type k).0 e ∙ p) refl
]

status_of-freshen :
    (t : ℕ) (k : String) (v : ConditionStatus)
    → Lasting k v
    → (cs : List Condition) → status_of k cs ≡ some v
    → status_of k (map (freshen t) cs) ≡ some v
unfolding Lasting status_of
status_of-freshen t k v lasts [] h = h
status_of-freshen t k v lasts (c ∷ cs) h = elim (Bool-cases (c.type == k)) [
  | inl e ↦
      let same =
        (freshen-one t c).2 (lasts c e (some-injective c.status v (sym (if_true _ _ e) ∙ h))) in
      rw (same, e) (ap some (some-injective c.status v (sym (if_true _ _ e) ∙ h)))
  | inr e ↦
      rw ((freshen-one t c).1, e) (status_of-freshen t k v lasts cs (sym (if_false _ _ e) ∙ h))
]

negated : (a : Bool) → not a ≡ true → a ≡ false
negated a h = ground arith

false_kept :
    (t : ℕ) (cs : List Condition) (ks : List String)
    → all (λ k. not (k == "Completed")) ks ≡ true
    → Reads is_false cs ks
    → Reads is_false (map (freshen t) cs) ks
false_kept t cs [] o h = tt
false_kept t cs (k ∷ ks) o h = (
  status_of-freshen t k is_false (false-Lasting k (negated _ (both _ _ o).0)) cs h.0,
  false_kept t cs ks (both _ _ o).1 h.1,
)

freshen-Agrees :
    (p : PlanPhase) (t : ℕ) (cs : List Condition)
    → is_completed p ≡ true
    → Agrees p cs
    → Agrees p (map (freshen t) cs)
freshen-Agrees PlanPhase.completed t cs e h = (
  (status_of-freshen t "Completed" is_true (true-Lasting _ (inl refl)) cs h.0.0, tt),
  false_kept t cs (denied PlanPhase.completed) refl h.1,
)
freshen-Agrees PlanPhase.completed_with_errors t cs e h = (
  (status_of-freshen t "CompletedWithErrors" is_true (true-Lasting _ (inr refl)) cs h.0.0, tt),
  false_kept t cs (denied PlanPhase.completed_with_errors) refl h.1,
)
freshen-Agrees _ t cs e h = ground arith

moved-Agrees :
    (t : ℕ) (p : PlanPhase) (message : String) (cs : List Condition)
    → Agrees p (phase_conditions t p message cs)
moved-Agrees t PlanPhase.unset message cs = (tt, tt)
moved-Agrees t (PlanPhase.unknown s) message cs = (tt, tt)
moved-Agrees t PlanPhase.completed_with_errors message cs =
    let h = phase_conditions-exclusive t PlanPhase.completed_with_errors message cs in
    ground (arith, h)
moved-Agrees t p message cs = let h = phase_conditions-exclusive t p message cs in ((h.0, tt), h.1)

pub Agrees-Stable : Stable (λ c. Agrees c.status.phase c.status.conditions)
Agrees-Stable = record {
  plain = λ c status p g k h. rw (p, k) h;
  marks = λ c t type status reason message e h.
      let o = others_of c.status.phase in
      (
        Reads-mark is_true t type status reason message e c.status.conditions _ o.0 h.0,
        Reads-mark is_false t type status reason message e c.status.conditions _ o.1 h.1,
      );
  moves = λ c p t message h. moved-Agrees t p message c.status.conditions;
  freshens = λ c t e h. freshen-Agrees c.status.phase t c.status.conditions e h;
}
