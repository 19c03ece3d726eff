-- ===== src/Conditions/Lookup.antt =====
-- How setCondition and updatePhase read through the first condition of a type.
use virt_advisor_operator.Base.{
  ℕ, String, Option, none, some, List, [], ◌∷◌, ◌≡◌, refl, arith, ◌==◌, if◌then◌else◌, string_eq,
}
use virt_advisor_operator.Api.{ConditionStatus, Condition, status_beq_iff}
use virt_advisor_operator.Conditions.{put_condition, set_condition, overwrite}

-- The status of the first condition of a type.
unfoldable pub status_of : String → List Condition → Option ConditionStatus
status_of k [] = none
status_of k (c ∷ cs) = if c.type == k then some c.status else status_of k cs

status_of-put_condition :
    (k : String) (new : Condition) (cs : List Condition)
    → status_of k (put_condition new cs)
      ≡ (if new.type == k then some new.status else status_of k cs)
unfolding status_of put_condition
status_of-put_condition k new [] = refl
status_of-put_condition k new (c ∷ cs) = ground (
  arith,
  string_eq.equal_iff c.type new.type,
  string_eq.equal_iff c.type k,
  string_eq.equal_iff new.type k,
  status_beq_iff c.status new.status,
  status_of-put_condition k new cs,
)

pub status_of-set_condition :
    (k : String) (now : ℕ) (type : String) (status : ConditionStatus) (reason message : String)
    (cs : List Condition)
    → status_of k (set_condition now type status reason message cs)
      ≡ (if type == k then some status else status_of k cs)
unfolding set_condition
status_of-set_condition k now type status reason message cs = status_of-put_condition k _ cs

pub status_of-overwrite :
    (k : String) (new : Condition) (cs : List Condition)
    → status_of k (overwrite new cs) ≡ (if new.type == k then some new.status else status_of k cs)
unfolding status_of overwrite
status_of-overwrite k new [] = refl
status_of-overwrite k new (c ∷ cs) = ground (
  arith,
  string_eq.equal_iff c.type new.type,
  string_eq.equal_iff c.type k,
  string_eq.equal_iff new.type k,
  status_of-overwrite k new cs,
)
