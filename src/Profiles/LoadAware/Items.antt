-- ===== src/Profiles/LoadAware/Items.antt =====
-- The two items of the load-aware profile: generateDeschedulerItem and generateMachineConfigItem of
-- internal/profiles/loadaware/profile.go.
use virt_advisor_operator.Base.{
  String, Bool, true, none, some, List, [], ◌∷◌, ◌++◌, ◌==◌, ◌!=◌, ◌||◌, if◌then◌else◌, string_eq,
  ◌⊕◌, map,
}
use virt_advisor_operator.Base.Int.{ℤ}
use virt_advisor_operator.Api.{Item, Impact}
use virt_advisor_operator.Api.Json.{Value, Fields, bool, int, str, arr, obj, end, field, elements}
use virt_advisor_operator.Kube.{
  Env, State, M, Result, ok, ◌>>=◌, return, raise, lift, attempt, unless_error,
}
use virt_advisor_operator.Kube.Effects.{Follows, follow_rules}
use virt_advisor_operator.Kube.Applied.{Reading, quiet_rules}
use virt_advisor_operator.Plan.{create_unstructured}
use virt_advisor_operator.Plan.Wait.{machine_config_gvk}
use virt_advisor_operator.Profiles.{ConfigMap, lookup}
use virt_advisor_operator.Profiles.Builder.{
  PlanItemBuilder, new_plan_item_builder, for_resource, with_managed_fields, with_impact,
  with_message, build, Follows-build,
}
use virt_advisor_operator.Profiles.Eviction.{get_eviction_limits}
use virt_advisor_operator.Profiles.KernelArgs.Pool.{
  validate_kernel_arg_in_pool, Follows-validate_kernel_arg_in_pool,
}
use virt_advisor_operator.Profiles.LoadAware.Selection.{
  kube_descheduler_gvk, kube_descheduler_name, kube_descheduler_namespace, relieve_and_migrate,
  dev_relieve_and_migrate, select_descheduler_profile, build_profiles_list,
  Follows-select_descheduler_profile, Follows-build_profiles_list,
}
use virt_advisor_operator.Profiles.LoadAware.Schema.{
  crd_supports_eviction_limit_node, Follows-crd_supports_eviction_limit_node,
}
use virt_advisor_operator.Profiles.Reading.{reading_rules}

-- `if custom, ok := m[key]; ok && custom != "" { custom } else { default }`.
unfoldable pub custom_or : ConfigMap → String → String → String
custom_or m key default = elim (lookup key m) [
  | none ↦ default
  | some custom ↦ if custom != "" then custom else default
]

-- The profiles that the customizations are for.
unfoldable pub is_customized : String → Bool
is_customized profile = profile == relieve_and_migrate || profile == dev_relieve_and_migrate

abbrev pub base_fields : List String
base_fields =
    "spec.managementState" ∷ "spec.deschedulingIntervalSeconds" ∷ "spec.mode" ∷ "spec.profiles" ∷ []

unfoldable pub descheduler_fields : String → List String
descheduler_fields profile =
    if is_customized profile
    then base_fields ++ "spec.profileCustomizations" ∷ "spec.evictionLimits" ∷ []
    else base_fields

-- The spec of the KubeDescheduler, before what is added at its end.
unfoldable pub descheduler_spec : ℤ → String → List String → Fields → Fields
descheduler_spec interval mode profiles rest = field "managementState" (str "Managed") (
    field "deschedulingIntervalSeconds" (int interval)
      (field "mode" (str mode) (field "profiles" (arr (elements (map str profiles))) rest)))

unfoldable pub limit_fields : Bool → ℤ × ℤ → Fields
limit_fields supports_node (total, node) =
    field "total" (int total) (if supports_node then field "node" (int node) end else end)

unfoldable pub customizations : String → Fields → Fields
customizations thresholds limits =
    field "profileCustomizations"
      (obj (
        field "devEnableEvictionsInBackground" (bool true) (
          field "devEnableSoftTainter" (bool true)
            (field "devDeviationThresholds" (str thresholds) end))))
      (field "evictionLimits" (obj limits) end)

abbrev pub psi_kernel_arg : String
psi_kernel_arg = "psi=1"

abbrev pub psi_machine_config : String
psi_machine_config = "99-worker-psi-karg"

abbrev pub worker_labels : List (String × String)
worker_labels = ("machineconfiguration.openshift.io/role", "worker") ∷ []

module _ (env : Env) where
  -- The branch of the profiles that take customizations: what it adds to the spec.
  unfoldable pub customized : String → ConfigMap → M Fields
  customized profile m =
      if is_customized profile
      then unless_error (get_eviction_limits env m)
          (λ e. raise ("failed to determine eviction limits: " ⊕ e))
          (λ limits.
            unless_error (crd_supports_eviction_limit_node env)
              (λ e. raise ("failed to check CRD schema: " ⊕ e))
              (λ supports_node. return (
                customizations (custom_or m "devDeviationThresholds" "AsymmetricLow")
                  (limit_fields supports_node limits))))
      else return end

  -- `unstructured.SetNestedMap(desired.Object, spec, "spec")`.
  unfoldable pub set_spec : Value → Fields → M Value
  set_spec desired spec =
      unless_error (lift (env.set_nested_map desired spec ("spec" ∷ [])))
        (λ e. raise ("failed to set spec: " ⊕ e)) return

  -- The builder that generateDeschedulerItem runs.
  unfoldable pub descheduler_builder : String → Value → PlanItemBuilder
  unfolding new_plan_item_builder for_resource with_managed_fields with_message
  descheduler_builder profile desired =
      with_message ("KubeDescheduler 'cluster' will be configured with profile '" ⊕ profile ⊕ "'") (
        with_managed_fields (descheduler_fields profile) (
          for_resource desired "enable-load-aware-descheduling"
            (new_plan_item_builder "virt-advisor-operator")))

  unfoldable pub generate_descheduler_item : ℤ → ConfigMap → M Item
  generate_descheduler_item interval m = select_descheduler_profile env >>= λ profile.
      build_profiles_list env profile >>= λ profiles. customized profile m >>= λ rest.
      set_spec
        (create_unstructured env kube_descheduler_gvk kube_descheduler_name
          kube_descheduler_namespace)
        (descheduler_spec interval (custom_or m "mode" "Automatic") profiles rest)
      >>= λ desired. build env (descheduler_builder profile desired)

  -- The impact and the message, of whether the argument is in effect in the pool.
  unfoldable pub psi_rating : Result (Bool × Bool) → Impact × String
  psi_rating (ok (true, _)) =
      (Impact.low, "PSI metrics already effective in MachineConfigPool 'worker'")
  psi_rating _ = (
    Impact.high,
    "MachineConfig '" ⊕ psi_machine_config ⊕ "' will be configured to enable PSI metrics",
  )

  unfoldable pub psi_builder : Impact × String → Value → PlanItemBuilder
  unfolding new_plan_item_builder for_resource with_managed_fields with_impact with_message
  psi_builder (impact, message) desired = with_message message (
      with_impact impact (
        with_managed_fields ("spec.kernelArguments" ∷ []) (
          for_resource desired "enable-psi-metrics"
            (new_plan_item_builder "virt-advisor-operator"))))

  unfoldable pub generate_machine_config_item : M Item
  generate_machine_config_item =
      set_spec
        (env.set_labels worker_labels
          (create_unstructured env machine_config_gvk psi_machine_config ""))
        (field "kernelArguments" (arr (elements (str psi_kernel_arg ∷ []))) end)
      >>= λ desired.
          attempt (validate_kernel_arg_in_pool env "worker" psi_kernel_arg) >>= λ present.
          build env (psi_builder (psi_rating present) desired)

module _ {R : State → State → Type 0} (base : Reading R) (env : Env) where
  pub Follows-set_spec : (desired : Value) (spec : Fields) → Follows R (set_spec env desired spec)
  unfolding set_spec
  Follows-set_spec desired spec = search follow_rules depth 8

  Follows-customized : (profile : String) (m : ConfigMap) → Follows R (customized env profile m)
  unfolding customized
  Follows-customized profile m =
      search (follow_rules, quiet_rules, reading_rules, Follows-crd_supports_eviction_limit_node)
        depth 12

  pub Follows-descheduler_item :
      (interval : ℤ) (m : ConfigMap) → Follows R (generate_descheduler_item env interval m)
  unfolding generate_descheduler_item
  Follows-descheduler_item interval m =
      search
        (
          follow_rules, quiet_rules, Follows-customized, Follows-set_spec, Follows-build,
          Follows-select_descheduler_profile, Follows-build_profiles_list,
        )
        depth 12

  pub Follows-machine_config_item : Follows R (generate_machine_config_item env)
  unfolding generate_machine_config_item
  Follows-machine_config_item =
      search
        (
          follow_rules, quiet_rules, Follows-set_spec, Follows-build,
          Follows-validate_kernel_arg_in_pool,
        )
        depth 12
