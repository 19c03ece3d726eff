-- ===== src/Profiles/LoadAware/Profile.antt =====
-- LoadAwareRebalancingProfile of internal/profiles/loadaware/profile.go: the interface `Profile`.
use virt_advisor_operator.Base.{
  String, Bool, true, false, Option, none, some, List, [], ◌∷◌, ◌++◌, ◌==◌, if◌then◌else◌,
  string_eq, ◌⊕◌,
}
use virt_advisor_operator.Base.Int.{ℤ, pos}
use virt_advisor_operator.Api.{Item, Impact}
use virt_advisor_operator.Kube.{Env, State, M, GroupVersionKind, ◌>>=◌, return, raise, unless_error}
use virt_advisor_operator.Kube.Effects.{Follows, follow_rules}
use virt_advisor_operator.Kube.Applied.{Reading}
use virt_advisor_operator.Discovery.{Prerequisite}
use virt_advisor_operator.Plan.Crds.{check_required_crds, Follows-check_required_crds}
use virt_advisor_operator.Plan.Wait.{machine_config_gvk}
use virt_advisor_operator.Profiles.{ConfigMap, Profile, Concrete, lookup, load_aware_name}
use virt_advisor_operator.Profiles.Eviction.{hyper_converged_gvk, positive, int_or}
use virt_advisor_operator.Profiles.LoadAware.Items.{
  generate_descheduler_item, generate_machine_config_item, Follows-descheduler_item,
  Follows-machine_config_item,
}
use virt_advisor_operator.Profiles.LoadAware.Selection.{
  kube_descheduler_gvk, kube_descheduler_crd, string_in_slice,
}

abbrev prerequisite : GroupVersionKind → String → Prerequisite
prerequisite gvk description = record { gvk = gvk; description = description }

unfoldable pub get_prerequisites : List Prerequisite
get_prerequisites =
    prerequisite kube_descheduler_gvk "Please install the Descheduler Operator via OLM"
    ∷ prerequisite machine_config_gvk
        "MachineConfig CRD is required for PSI metrics configuration (typically available on OpenShift)"
    ∷ prerequisite hyper_converged_gvk "Please install OpenShift Virtualization via OLM"
    ∷ []

unfoldable pub get_managed_resource_types : List GroupVersionKind
get_managed_resource_types = kube_descheduler_gvk ∷ machine_config_gvk ∷ []

-- `supportedKeys`.
abbrev pub supported_keys : List String
supported_keys =
    "deschedulingIntervalSeconds" ∷ "enablePSIMetrics" ∷ "devDeviationThresholds"
    ∷ "evictionLimitTotal" ∷ "evictionLimitNode" ∷ []

module _ (env : Env) where
  unsupported : String → String
  unsupported key =
      "unsupported config override: "
      ⊕ env.quote key
      ⊕ " (supported: deschedulingIntervalSeconds, enablePSIMetrics, devDeviationThresholds, evictionLimitTotal, evictionLimitNode)"

  -- `Validate`: Go's order over the map is not fixed; this takes the entries in order.
  unfoldable pub validate : ConfigMap → Option String
  unfolding string_in_slice unsupported
  validate [] = none
  validate ((key, _) ∷ m) =
      let rest = validate m in
      if string_in_slice key supported_keys then rest else some (unsupported key)

-- `enablePSI`.
unfoldable pub enable_psi : ConfigMap → Bool
enable_psi m = elim (lookup "enablePSIMetrics" m) [
  | none ↦ true
  | some val ↦ if val == "false" then false else true
]

unfoldable pub required_crds : Bool → List String
required_crds true = kube_descheduler_crd ∷ "machineconfigs.machineconfiguration.openshift.io" ∷ []
required_crds false = kube_descheduler_crd ∷ []

-- `%v` of a slice of texts, without its brackets.
joined : List String → String
joined [] = ""
joined (s ∷ []) = s
joined (s ∷ t ∷ ss) = s ⊕ " " ⊕ joined (t ∷ ss)

missing_crds : List String → String
unfolding joined
missing_crds names =
    "required CRDs not found in cluster: [" ⊕ joined names ⊕ "] (install them first)"

module _ (env : Env) where
  -- `deschedulingInterval`.
  unfoldable pub descheduling_interval : ConfigMap → ℤ
  descheduling_interval m = elim (lookup "deschedulingIntervalSeconds" m) [
    | none ↦ pos 60
    | some val ↦ int_or (positive (env.scan_int32 val)) (pos 60)
  ]

  -- The items before that of the KubeDescheduler.
  unfoldable pub psi_items : Bool → M (List Item)
  psi_items false = return []
  psi_items true =
      unless_error (generate_machine_config_item env)
        (λ e. raise ("failed to generate machine config item: " ⊕ e)) (λ item. return (item ∷ []))

  unfoldable pub generate_items : ConfigMap → M (List Item)
  generate_items m = psi_items (enable_psi m) >>= λ items.
      unless_error (generate_descheduler_item env (descheduling_interval m) m)
        (λ e. raise ("failed to generate descheduler item: " ⊕ e))
        λ item. return (items ++ item ∷ [])

  unfoldable pub after_crds : ConfigMap → List String → M (List Item)
  unfolding missing_crds
  after_crds m [] = generate_items m
  after_crds m (name ∷ names) = raise (missing_crds (name ∷ names))

  unfoldable pub generate_plan_items : ConfigMap → M (List Item)
  unfolding after_crds
  generate_plan_items m =
      unless_error (check_required_crds env (required_crds (enable_psi m)))
        (λ e. raise ("failed to check required CRDs: " ⊕ e)) (after_crds m)

  -- `NewLoadAwareRebalancingProfile` and the methods that return constants.
  abbrev pub load_aware_profile : Profile
  load_aware_profile = record {
    concrete = Concrete.load_aware;
    name = load_aware_name;
    prerequisites = get_prerequisites;
    managed_resource_types = get_managed_resource_types;
    validate = validate env;
    generate_plan_items = generate_plan_items;
    description = "Enables load-aware VM rebalancing and PSI metrics for intelligent scheduling";
    category = "scheduling";
    impact_summary = "Medium - May require node reboots if PSI metrics are enabled";
    impact_level = Impact.high;
    is_advertisable = true;
  }

module _ {R : State → State → Type 0} (base : Reading R) (env : Env) where
  Follows-psi_items : (b : Bool) → Follows R (psi_items env b)
  unfolding psi_items
  Follows-psi_items false = search follow_rules
  Follows-psi_items true = search (follow_rules, Follows-machine_config_item) depth 8

  Follows-after_crds : (m : ConfigMap) (names : List String) → Follows R (after_crds env m names)
  unfolding after_crds generate_items
  Follows-after_crds m [] =
      search (follow_rules, Follows-psi_items, Follows-descheduler_item) depth 8
  Follows-after_crds m (name ∷ names) = search follow_rules

  pub Follows-load_aware : (m : ConfigMap) → Follows R (generate_plan_items env m)
  unfolding generate_plan_items
  Follows-load_aware m =
      search (follow_rules, Follows-check_required_crds, Follows-after_crds) depth 8
