-- ===== src/Profiles/KernelArgs/Pool.antt =====
-- The kernel arguments that a MachineConfigPool has in effect: the functions of
-- internal/profiles/profileutils/machineconfig_helpers.go that read the cluster.
use virt_advisor_operator.Base.{String, Bool, List, [], ◌∷◌, ◌==◌, if◌then◌else◌, string_eq, ◌⊕◌}
use virt_advisor_operator.Api.Json.{Value}
use virt_advisor_operator.Kube.{Env, State, M, ◌>>=◌, return, raise, on_reply, on_nested}
use virt_advisor_operator.Util.{get_nested_string}
use virt_advisor_operator.Kube.Effects.{Follows, follow_rules}
use virt_advisor_operator.Kube.Applied.{Reading, quiet_rules}
use virt_advisor_operator.Plan.{get_unstructured}
use virt_advisor_operator.Plan.Quiet.{quiet_plan}
use virt_advisor_operator.Plan.Wait.{machine_config_gvk, machine_config_pool_gvk}
use virt_advisor_operator.Profiles.KernelArgs.{check_kernel_arg}

module _ (env : Env) where
  unfoldable pub get_machine_config_pool_for_role : String → M Value
  get_machine_config_pool_for_role role = do
    reply ← get_unstructured env machine_config_pool_gvk role ""
    on_reply reply return (λ e. raise ("failed to get MachineConfigPool " ⊕ role ⊕ ": " ⊕ e))
        (λ e. raise ("failed to get MachineConfigPool " ⊕ role ⊕ ": " ⊕ e))

  no_configuration : Value → M String
  no_configuration pool = raise ("pool " ⊕ env.name_of pool ⊕ " has no rendered configuration")

  unfoldable pub get_rendered_machine_config_name : Value → M String
  unfolding no_configuration
  get_rendered_machine_config_name pool =
      on_nested (get_nested_string env pool ("status" ∷ "configuration" ∷ "name" ∷ []))
        (λ name. if name == "" then no_configuration pool else return name) (no_configuration pool)
        raise

  unfoldable pub get_rendered_machine_config : Value → M Value
  get_rendered_machine_config pool = do
    name ← get_rendered_machine_config_name pool
    reply ← get_unstructured env machine_config_gvk name ""
    on_reply reply return (λ e. raise ("failed to get rendered MachineConfig " ⊕ name ⊕ ": " ⊕ e))
        (λ e. raise ("failed to get rendered MachineConfig " ⊕ name ⊕ ": " ⊕ e))

  unfoldable pub get_effective_kernel_args : Value → M (List String)
  get_effective_kernel_args rendered =
      on_nested (env.nested_string_slice rendered ("spec" ∷ "kernelArguments" ∷ [])) return
        (return []) (λ e. raise ("failed to extract kernel arguments: " ⊕ e))

  -- (isPresent, willBePresent), which are the same.
  unfoldable pub validate_kernel_arg_in_pool : String → String → M (Bool × Bool)
  validate_kernel_arg_in_pool pool_name arg = do
    pool ← get_machine_config_pool_for_role pool_name
    rendered ← get_rendered_machine_config pool
    effective ← get_effective_kernel_args rendered
    return (check_kernel_arg effective arg, check_kernel_arg effective arg)

module _ {R : State → State → Type 0} (base : Reading R) (env : Env) where
  Follows-pool : (role : String) → Follows R (get_machine_config_pool_for_role env role)
  unfolding get_machine_config_pool_for_role
  Follows-pool role = search (follow_rules, quiet_rules, quiet_plan) depth 8

  Follows-rendered_name : (pool : Value) → Follows R (get_rendered_machine_config_name env pool)
  unfolding get_rendered_machine_config_name no_configuration
  Follows-rendered_name pool = search follow_rules depth 8

  Follows-rendered : (pool : Value) → Follows R (get_rendered_machine_config env pool)
  unfolding get_rendered_machine_config
  Follows-rendered pool =
      search (follow_rules, quiet_rules, quiet_plan, Follows-rendered_name) depth 8

  Follows-effective : (rendered : Value) → Follows R (get_effective_kernel_args env rendered)
  unfolding get_effective_kernel_args
  Follows-effective rendered = search follow_rules depth 8

  pub Follows-validate_kernel_arg_in_pool :
      (pool arg : String) → Follows R (validate_kernel_arg_in_pool env pool arg)
  unfolding validate_kernel_arg_in_pool
  Follows-validate_kernel_arg_in_pool pool arg =
      search (follow_rules, Follows-pool, Follows-rendered, Follows-effective) depth 8
