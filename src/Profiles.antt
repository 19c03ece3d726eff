-- ===== src/Profiles.antt =====
-- internal/profiles: the Profile interface and the registry (profiles.go), and the options as a map
-- of texts (profileconfig.go, profileutils/config_helpers.go).
pub mod Eviction
pub mod Density
pub mod KernelArgs
pub mod Registering
pub mod Reading
pub mod Builder
pub mod LoadAware
pub mod HigherDensity
pub mod Example
pub mod Default
pub mod Proposals
pub mod ManagedTypes
use virt_advisor_operator.Base.{
  String, Bool, true, false, Option, none, some, List, [], ◌∷◌, ◌++◌, map, ◌==◌, ◌!=◌,
  if◌then◌else◌, string_eq, ◌⊕◌,
}
use virt_advisor_operator.Base.Int.{ℤ}
use virt_advisor_operator.Api.{
  Impact, Item, ProfileOptions, LoadAwareConfig, VirtHigherDensityConfig, KsmConfiguration,
  LabelSelector,
}
use virt_advisor_operator.Kube.{Env, M, Result, ok, err, GroupVersionKind}
use virt_advisor_operator.Discovery.{Prerequisite}

-- `map[string]string`, the last write of a key first.
abbrev pub ConfigMap : Type 0
ConfigMap = List (String × String)

unfoldable pub lookup {ℓ} : {A : Type ℓ} → String → List (String × A) → Option A
lookup k [] = none
lookup k ((j, v) ∷ m) = if j == k then some v else lookup k m

-- The dynamic type of a Profile value.
pub data Concrete : Type 0 where
  load_aware virt_higher_density other : Concrete

-- The interface `Profile`.
pub record Profile : Type 0 where
  pub concrete : Concrete
  pub name : String
  pub prerequisites : List Prerequisite
  pub managed_resource_types : List GroupVersionKind
  pub validate : ConfigMap → Option String
  pub generate_plan_items : ConfigMap → M (List Item)
  pub description : String
  pub category : String
  pub impact_summary : String
  pub impact_level : Impact
  pub is_advertisable : Bool

abbrev pub Registry : Type 0
Registry = List (String × Profile)

module _ (env : Env) where
  -- What `Registry.Get` makes of the map access.
  unfoldable pub found_profile : String → Option Profile → Result Profile
  found_profile name none = err ("profile " ⊕ env.quote name ⊕ " not found")
  found_profile name (some p) = ok p

  -- `Registry.Get`.
  unfoldable pub get_profile : Registry → String → Result Profile
  unfolding found_profile
  get_profile r name = found_profile name (lookup name r)

  unfoldable pub registered : Registry → Profile → Option Profile → Result Registry
  registered r p none = ok ((p.name, p) ∷ r)
  registered r p (some _) = err ("profile " ⊕ env.quote p.name ⊕ " is already registered")

  -- `Registry.Register`.
  unfoldable pub register : Registry → Profile → Result Registry
  unfolding registered
  register r p = registered r p (lookup p.name r)

abbrev pub load_aware_name : String
load_aware_name = "load-aware-rebalancing"

abbrev pub higher_density_name : String
higher_density_name = "virt-higher-density"

unfoldable pub format_bool : Bool → String
format_bool true = "true"
format_bool false = "false"

-- `if p != nil { m[k] = … }`; the keys are written once each.
unfoldable pub entry {ℓ} : {A : Type ℓ} → String → (A → String) → Option A → ConfigMap
entry k f none = []
entry k f (some a) = (k, f a) ∷ []

module _ (env : Env) where
  unfoldable pub load_aware_to_map : LoadAwareConfig → ConfigMap
  unfolding entry format_bool
  load_aware_to_map c =
      entry "deschedulingIntervalSeconds" env.format_int c.descheduling_interval_seconds
      ++ (entry "enablePSIMetrics" format_bool c.enable_psi_metrics
          ++ (entry "devDeviationThresholds" (λ s. s) c.dev_deviation_thresholds
              ++ (entry "evictionLimitTotal" env.format_int c.eviction_limit_total
                  ++ entry "evictionLimitNode" env.format_int c.eviction_limit_node)))

  unfoldable pub selector_entry : Bool → Option LabelSelector → ConfigMap
  selector_entry true (some selector) = elim (env.marshal_selector selector) [
    | ok text ↦ ("ksmNodeLabelSelector", text) ∷ []
    | err _ ↦ []
  ]
  selector_entry _ _ = []

  unfoldable pub ksm_enabled : Option Bool → Bool
  ksm_enabled none = true
  ksm_enabled (some b) = b

  unfoldable pub ksm_to_map : Option KsmConfiguration → ConfigMap
  unfolding selector_entry ksm_enabled format_bool
  ksm_to_map none = ("ksmEnabled", "true") ∷ []
  ksm_to_map (some k) =
      ("ksmEnabled", format_bool (ksm_enabled k.enabled))
      ∷ selector_entry (ksm_enabled k.enabled) k.node_label_selector

  unfoldable pub virt_higher_density_to_map : VirtHigherDensityConfig → ConfigMap
  unfolding entry format_bool ksm_to_map
  virt_higher_density_to_map c =
      entry "enableSwap" format_bool c.enable_swap
      ++ (ksm_to_map c.ksm_configuration
          ++ entry "memoryToRequestRatio" env.format_int c.memory_to_request_ratio)

  unfoldable pub or_empty {ℓ} : {A : Type ℓ} → (A → ConfigMap) → Option A → ConfigMap
  or_empty f none = []
  or_empty f (some a) = f a

  -- `OptionsToMap`.
  unfoldable pub options_to_map : String → Option ProfileOptions → ConfigMap
  unfolding load_aware_to_map virt_higher_density_to_map or_empty
  options_to_map profile none = []
  options_to_map profile (some o) =
      if profile == load_aware_name
      then or_empty load_aware_to_map o.load_aware
      else if profile == higher_density_name
      then or_empty virt_higher_density_to_map o.virt_higher_density
      else []

-- `ValidateOptions`.
unfoldable pub validate_options : String → Option ProfileOptions → Option String
validate_options profile none = none
validate_options profile (some _) =
    if profile == load_aware_name
    then none
    else if profile == higher_density_name
    then none
    else some ("unknown profile: " ⊕ profile)

text_or : Option String → String → String
text_or none d = d
text_or (some s) d = s

-- `GetBoolConfig`, `GetStringConfig`.
unfoldable pub get_bool_config : ConfigMap → String → Bool → Bool
get_bool_config m k d = elim (lookup k m) [ none ↦ d | some v ↦ v != "false" ]

unfoldable pub get_string_config : ConfigMap → String → String → String
unfolding text_or
get_string_config m k d = text_or (lookup k m) d

unfoldable pub int_or : Option ℤ → ℤ → ℤ
int_or none d = d
int_or (some n) d = n

-- `GetIntConfig`.
unfoldable pub get_int_config : Env → ConfigMap → String → ℤ → ℤ
unfolding int_or
get_int_config env m k d = elim (lookup k m) [ none ↦ d | some v ↦ int_or (env.parse_int v) d ]
