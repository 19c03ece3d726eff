-- ===== src/Plan/Wait.antt =====
-- internal/plan/wait.go: whether the workloads behind an item have converged.
pub mod Pool
use virt_advisor_operator.Base.{
  String, Bool, true, false, not, Option, none, some, List, [], ◌∷◌, ◌&&◌, ◌||◌, ◌==◌,
  if◌then◌else◌, string_eq, ◌⊕◌,
}
use virt_advisor_operator.Base.Int.{ℤ, pos, ltb_ℤ, int_eq}
use virt_advisor_operator.Api.{Item}
use virt_advisor_operator.Api.Json.{Value, obj}
use virt_advisor_operator.Kube.{
  Env, M, Nested, present, absent, invalid, GroupVersionKind, ◌>>=◌, return, raise, unless_error,
  on_reply, on_nested,
}
use virt_advisor_operator.Util.{get_nested_map}
use virt_advisor_operator.Plan.{get_unstructured}

abbrev pub machine_config_pool_gvk : GroupVersionKind
machine_config_pool_gvk = record {
  group = "machineconfiguration.openshift.io";
  version = "v1";
  kind = "MachineConfigPool";
}

abbrev pub machine_config_gvk : GroupVersionKind
machine_config_gvk = record {
  group = "machineconfiguration.openshift.io";
  version = "v1";
  kind = "MachineConfig";
}

-- `v, _, _ := unstructured.NestedInt64(…)`.
abbrev pub int_or_zero : Nested ℤ → ℤ
int_or_zero (present n) = n
int_or_zero _ = pos 0

abbrev pub text_or_empty : Nested String → String
text_or_empty (present s) = s
text_or_empty _ = ""

abbrev pub is_map : Value → Bool
is_map (obj _) = true
is_map _ = false

module _ (env : Env) where
  -- One condition of the pool is of this type and True.
  abbrev pub shows : String → Value → Bool
  shows type c =
      is_map c
      && text_or_empty (env.nested_string c ("type" ∷ [])) == type
      && text_or_empty (env.nested_string c ("status" ∷ [])) == "True"

  -- The loop over the conditions, with the flags isUpdated and isUpdating.
  unfoldable pub scan : List Value → Bool → Bool → Bool × Bool
  scan [] is_updated is_updating = (is_updated, is_updating)
  scan (c ∷ cs) is_updated is_updating =
      scan cs (shows "Updated" c || is_updated) (shows "Updating" c || is_updating)

  unfoldable pub count_of : Value → String → ℤ
  count_of status key = int_or_zero (env.nested_int64 status (key ∷ []))

  pub converging : String → String → Value → String
  unfolding count_of
  converging text pool status =
      text
      ⊕ " (Updated: "
      ⊕ env.format_int (count_of status "updatedMachineCount")
      ⊕ "/"
      ⊕ env.format_int (count_of status "machineCount")
      ⊕ ", Ready: "
      ⊕ env.format_int (count_of status "readyMachineCount")
      ⊕ "/"
      ⊕ env.format_int (count_of status "machineCount")
      ⊕ ")"

  -- Wait from the flags on.
  unfoldable pub settled : String → Value → Bool × Bool → String × Bool
  unfolding count_of
  settled pool status (is_updated, is_updating) =
      let machines = count_of status "machineCount" in
      if is_updating
      then (converging ("MachineConfigPool '" ⊕ pool ⊕ "' is updating") pool status, false)
      else if not is_updated
      then (
        converging ("MachineConfigPool '" ⊕ pool ⊕ "' is processing changes") pool status,
        false,
      )
      else if count_of status "updatedMachineCount" == machines
          && count_of status "readyMachineCount" == machines
          && ltb_ℤ (pos 0) machines
      then (
        "MachineConfigPool '"
            ⊕ pool
            ⊕ "' is ready (all "
            ⊕ env.format_int machines
            ⊕ " nodes updated)",
        true,
      )
      else (
        converging ("Waiting for MachineConfigPool '" ⊕ pool ⊕ "' to stabilize") pool status,
        false,
      )

  unfoldable pub scanned : String → Value → Nested (List Value) → String × Bool
  unfolding scan settled
  scanned pool status (present conditions) = settled pool status (scan conditions false false)
  scanned pool status _ = ("MachineConfigPool conditions not available", false)

  -- Wait once the status of the pool is at hand.
  unfoldable pub pool_health : String → Value → String × Bool
  unfolding scanned count_of
  pool_health pool status =
      let degraded = count_of status "degradedMachineCount" in
      if ltb_ℤ (pos 0) degraded
      then (
        "MachineConfigPool '"
            ⊕ pool
            ⊕ "' is degraded ("
            ⊕ env.format_int degraded
            ⊕ " degraded machines)",
        false,
      )
      else scanned pool status (env.nested_slice status ("conditions" ∷ []))

  role_or_worker : Option String → String
  role_or_worker none = "worker"
  role_or_worker (some role) = if role == "" then "worker" else role

  get_machine_config_pool_name : Item → M String
  unfolding role_or_worker
  get_machine_config_pool_name item = do
    reply ← get_unstructured env machine_config_gvk item.target_ref.name item.target_ref.namespace
    on_reply reply
        (λ mc. return (role_or_worker (env.label_of mc "machineconfiguration.openshift.io/role")))
        (λ _. return "worker") (λ _. return "worker")

  -- `MachineConfigWaitStrategy.Wait`.
  wait : Item → M (String × Bool)
  unfolding pool_health get_machine_config_pool_name
  wait item = do
    pool ← get_machine_config_pool_name item
    reply ← get_unstructured env machine_config_pool_gvk pool ""
    on_reply reply
        (λ mcp.
          on_nested (get_nested_map env mcp ("status" ∷ []))
            (λ status. return (pool_health pool status))
            (return ("MachineConfigPool status not available", false)) raise)
        (λ _. return ("MachineConfigPool '" ⊕ pool ⊕ "' not found", false))
        (λ e. raise ("failed to get MachineConfigPool: " ⊕ e))

-- `MachineConfigWaitStrategy.ShouldWait`.
abbrev pub should_wait : Item → Bool
should_wait item = item.target_ref.kind == "MachineConfig"

-- What CheckHealthy returns.
pub record Health : Type 0 where
  pub message : String
  pub healthy : Bool
  pub needs_wait : Bool

module _ (env : Env) where
  -- CheckHealthy over the one strategy of NewWaitStrategyManager.
  unfoldable pub check_healthy : Item → M Health
  unfolding wait
  check_healthy item =
      if should_wait item
      then unless_error (wait env item) (λ e. raise ("failed to check resource health: " ⊕ e))
          (λ r. return (record { message = r.0; healthy = r.1; needs_wait = true }))
      else return (record { message = "Applied successfully"; healthy = true; needs_wait = false })
