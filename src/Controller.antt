-- ===== src/Controller.antt =====
-- internal/controller: the reconciler of VirtPlatformConfig.
-- This file: writes to the object in memory, updatePhase and setCondition.
pub mod Items
pub mod Execution
pub mod InProgress
pub mod Hco
pub mod Watches
pub mod Sentinel
pub mod Upgrade
pub mod Completed
pub mod Drafting
pub mod Review
pub mod Drifted
pub mod Steps
pub mod Unchanged
pub mod Quiet
pub mod Reconcile
pub mod Runs
use virt_advisor_operator.Base.{
  ℕ, suc, zero, String, Option, none, some, List, [], ◌∷◌, set, get_elem?, length,
}
use virt_advisor_operator.Api.{PlanPhase, ConditionStatus, Condition, Item, Status, Config}
use virt_advisor_operator.Kube.{
  Env, M, ◌>>=◌, ◌>>◌, return, raise, reads, writes, if_nil, now, update_status,
}
use virt_advisor_operator.Conditions.{Update, phase_conditions, set_condition}

-- An assignment to `configPlan.Status`.
unfoldable pub set_status : (Status → Status) → M (Unit {0})
set_status f = writes (λ c. record c { status = f c.status })

-- `configPlan.Status.Items[i]`, a pointer that the loops hold while they write through it.
unfoldable pub item_at : ℕ → M Item
item_at i = do
  found ← reads (λ c. get_elem? c.status.items i)
  if_nil found (raise "index out of range") return

write_item : List Item → ℕ → (Item → Item) → Option Item → List Item
write_item items i f none = items
write_item items i f (some x) = set items i (f x)

-- An assignment to fields of `configPlan.Status.Items[i]`.
unfoldable pub update_item : ℕ → (Item → Item) → List Item → List Item
unfolding write_item
update_item i f items = write_item items i f (get_elem? items i)

unfoldable pub set_item : ℕ → (Item → Item) → M (Unit {0})
set_item i f = set_status (λ s. record s { items = update_item i f s.items })

-- The indices from `i`, of a `for i := range` loop with `n` rounds.
abbrev pub indices : ℕ → ℕ → List ℕ
indices i zero = []
indices i (suc n) = i ∷ indices (suc i) n

unfoldable pub item_indices : M (List ℕ)
item_indices = reads (λ c. indices 0 (length c.status.items))

module _ (env : Env) where
  -- `r.setCondition`.
  unfoldable pub mark : String → ConditionStatus → String → String → M (Unit {0})
  mark type status reason message = do
    t ← now env
    set_status
        (λ s. record s { conditions = set_condition t type status reason message s.conditions })

  -- `r.updatePhase`.
  unfoldable pub update_phase : PlanPhase → String → M (Unit {0})
  update_phase phase message = do
    t ← now env
    writes (λ c. record c {
      status = record c.status {
        phase = phase;
        observed_generation = c.generation;
        conditions = phase_conditions t phase message c.status.conditions;
      };
    })
    update_status env
