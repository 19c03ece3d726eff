-- ===== src/Conditions/Distinct.antt =====
-- The conditions form a map by their type, as the CRD demands (`listMapKey=type`).
use virt_advisor_operator.Base.{
  ℕ, String, true, false, List, [], ◌∷◌, ◌≡◌, arith, ◌==◌, string_eq, All, Bool-cases, inl, inr,
  map,
}
use virt_advisor_operator.Api.{PlanPhase, ConditionStatus, Condition}
use virt_advisor_operator.Conditions.{put_condition, set_condition, overwrite, phase_conditions}

abbrev Fresh : String → List Condition → Type 0
Fresh k = All (λ c. (c.type == k) ≡ false)

-- No two conditions have one type.
abbrev pub Distinct : List Condition → Type 0
Distinct [] = Unit
Distinct (c ∷ cs) = Fresh c.type cs × Distinct cs

Fresh-eq : (j k : String) (cs : List Condition) → (j == k) ≡ true → Fresh j cs → Fresh k cs
Fresh-eq j k [] e h = tt
Fresh-eq j k (c ∷ cs) e h = (
  ground
      (arith, string_eq.equal_iff j k, string_eq.equal_iff c.type j, string_eq.equal_iff c.type k),
  Fresh-eq j k cs e h.1,
)

module _ (k : String) (new : Condition) (other : (new.type == k) ≡ false) where
  Fresh-put_condition : (cs : List Condition) → Fresh k cs → Fresh k (put_condition new cs)
  unfolding put_condition
  Fresh-put_condition [] h = (other, tt)
  Fresh-put_condition (c ∷ cs) h = ground (arith, Fresh-put_condition cs h.1)

  Fresh-overwrite : (cs : List Condition) → Fresh k cs → Fresh k (overwrite new cs)
  unfolding overwrite
  Fresh-overwrite [] h = (other, tt)
  Fresh-overwrite (c ∷ cs) h = ground (arith, Fresh-overwrite cs h.1)

module _ (new : Condition) where
  put_condition-Distinct : (cs : List Condition) → Distinct cs → Distinct (put_condition new cs)
  unfolding put_condition
  put_condition-Distinct [] h = (tt, tt)
  put_condition-Distinct (c ∷ cs) h = elim (Bool-cases (c.type == new.type)) [
    | inl e ↦ rw e (ground (arith, Fresh-eq c.type new.type cs e h.0))
    | inr e ↦ rw e (
      Fresh-put_condition c.type new
          (ground (arith, string_eq.equal_iff c.type new.type, string_eq.equal_iff new.type c.type))
          cs h.0,
      put_condition-Distinct cs h.1,
    )
  ]

  overwrite-Distinct : (cs : List Condition) → Distinct cs → Distinct (overwrite new cs)
  unfolding overwrite
  overwrite-Distinct [] h = (tt, tt)
  overwrite-Distinct (c ∷ cs) h = elim (Bool-cases (c.type == new.type)) [
    | inl e ↦ rw e (Fresh-eq c.type new.type cs e h.0, h.1)
    | inr e ↦ rw e (
      Fresh-overwrite c.type new
          (ground (arith, string_eq.equal_iff c.type new.type, string_eq.equal_iff new.type c.type))
          cs h.0,
      overwrite-Distinct cs h.1,
    )
  ]

pub set_condition-Distinct :
    (now : ℕ) (type : String) (status : ConditionStatus) (reason message : String)
    (cs : List Condition)
    → Distinct cs
    → Distinct (set_condition now type status reason message cs)
unfolding set_condition
set_condition-Distinct now type status reason message cs h = put_condition-Distinct _ cs h

-- If no two conditions have one type before updatePhase, none have after it.
pub phase_conditions-Distinct :
    (now : ℕ) (p : PlanPhase) (message : String) (cs : List Condition)
    → Distinct cs
    → Distinct (phase_conditions now p message cs)
unfolding phase_conditions
phase_conditions-Distinct now PlanPhase.unset message cs h = search overwrite-Distinct depth 14
phase_conditions-Distinct now _ message cs h =
    search (set_condition-Distinct, overwrite-Distinct) depth 14

module _ (f : Condition → Condition) (same : (c : Condition) → (f c).type ≡ c.type) where
  Fresh-map : (k : String) (cs : List Condition) → Fresh k cs → Fresh k (map f cs)
  Fresh-map k [] h = tt
  Fresh-map k (c ∷ cs) h = (rw same h.0, Fresh-map k cs h.1)

  -- Only the types count.
  pub Distinct-map : (cs : List Condition) → Distinct cs → Distinct (map f cs)
  Distinct-map [] h = tt
  Distinct-map (c ∷ cs) h = (rw same (Fresh-map c.type cs h.0), Distinct-map cs h.1)
