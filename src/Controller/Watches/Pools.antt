-- ===== src/Controller/Watches/Pools.antt =====
-- enqueueMachineConfigPoolOwners of internal/controller/virtplatformconfig_watches.go.
use virt_advisor_operator.Base.{
  String, Bool, true, false, List, [], ◌∷◌, ◌==◌, ◌&&◌, ◌||◌, if◌then◌else◌, string_eq,
}
use virt_advisor_operator.Api.{Config, Item, ItemState, state_eq, PlanPhase}
use virt_advisor_operator.Kube.{Result}
use virt_advisor_operator.Controller.Watches.{requests_for, listed_or_none}

-- The phases that care about the status of a pool.
unfoldable pub cares_about_pools : PlanPhase → Bool
cares_about_pools PlanPhase.in_progress = true
cares_about_pools PlanPhase.completed = true
cares_about_pools PlanPhase.drafting = true
cares_about_pools _ = false

unfoldable pub is_started : Item → Bool
is_started item =
    item.target_ref.kind == "MachineConfig"
    && (item.state == ItemState.in_progress || item.state == ItemState.completed)

-- The inner loop, which stops at the first such item.
unfoldable pub any_started : List Item → Bool
any_started [] = false
any_started (item ∷ items) = let rest = any_started items in if is_started item then true else rest

unfoldable pub waits_for_pool : Config → Bool
waits_for_pool config = cares_about_pools config.status.phase && any_started config.status.items

-- The name of the pool is only logged.
unfoldable pub enqueue_machine_config_pool_owners : Result (List Config) → List String
enqueue_machine_config_pool_owners listed = listed_or_none listed (requests_for waits_for_pool)
