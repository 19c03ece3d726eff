-- ===== src/Controller/Completed/Fresh.antt =====
-- What ensureCompletedPhaseConditions leaves: no condition that contradicts the Completed phase.
use virt_advisor_operator.Base.{ℕ, false, List, [], ◌∷◌, ◌≡◌, refl, arith, string_eq, any, map}
use virt_advisor_operator.Api.{Condition, status_beq_iff, is_true, is_false}
use virt_advisor_operator.Controller.Completed.{is_stale, freshen}

pub freshen-one :
    (t : ℕ) (c : Condition)
    → (is_stale (freshen t c) ≡ false)
      × ((freshen t c).type ≡ c.type)
      × (is_stale c ≡ false → freshen t c ≡ c)
unfolding freshen is_stale
freshen-one t c = ground (
  arith,
  string_eq.equal_iff c.type "Drifted",
  string_eq.equal_iff c.type "Drafting",
  string_eq.equal_iff c.type "InProgress",
  string_eq.equal_iff c.type "Completed",
  string_eq.equal_iff "Drifted" "Completed",
  string_eq.equal_iff "Drafting" "Completed",
  string_eq.equal_iff "InProgress" "Completed",
  status_beq_iff c.status is_true,
  status_beq_iff c.status is_false,
)

-- The conditions that ensureCompletedPhaseConditions leaves are of the same types in the same order,
-- none of them contradicts the Completed phase, and where none did before nothing changes.
freshen-stale :
    (t : ℕ) (cs : List Condition)
    → (any is_stale (map (freshen t) cs) ≡ false)
      × (map (λ c. c.type) (map (freshen t) cs) ≡ map (λ c. c.type) cs)
      × (any is_stale cs ≡ false → map (freshen t) cs ≡ cs)
freshen-stale t [] = (refl, refl, λ h. refl)
freshen-stale t (c ∷ cs) = ground (arith, freshen-one t c, freshen-stale t cs)
