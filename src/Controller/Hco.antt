-- ===== src/Controller/Hco.antt =====
-- Input dependencies on HyperConverged: internal/controller/virtplatformconfig_hco.go.
use virt_advisor_operator.Base.{
  String, Bool, true, false, not, Option, none, some, List, [], ◌∷◌, ◌||◌, ◌==◌, ◌!=◌,
  if◌then◌else◌, find, string_eq, bool_eq, ◌⊕◌,
}
use virt_advisor_operator.Base.Int.{ℤ, pos, int32, int_eq}
use virt_advisor_operator.Api.{Item, ProfileOptions, LoadAwareConfig, VirtHigherDensityConfig}
use virt_advisor_operator.Api.Json.{Value}
use virt_advisor_operator.Kube.{
  Env, M, GroupVersionKind, ◌>>=◌, return, raise, reads, lift, unless_error, if_nil, on_reply,
  on_nested, get_object,
}
use virt_advisor_operator.Util.{get_nested_int64, get_nested_map}
use virt_advisor_operator.Profiles.{
  Registry, Concrete, get_profile, options_to_map, load_aware_name, higher_density_name,
}
use virt_advisor_operator.Profiles.Eviction.{get_eviction_limits, hyper_converged_gvk}
use virt_advisor_operator.Profiles.Density.{get_hco_config, is_present, overcommit_path}

abbrev kube_descheduler_gvk : GroupVersionKind
kube_descheduler_gvk = record {
  group = "operator.openshift.io";
  version = "v1";
  kind = "KubeDescheduler";
}

unfoldable pub find_hco_item : List Item → Option Item
find_hco_item = find (λ item. item.target_ref.kind == "HyperConverged")

unfoldable pub find_descheduler_item : List Item → Option Item
find_descheduler_item = find (λ item. item.target_ref.kind == "KubeDescheduler")

abbrev pub is_set {ℓ} : {A : Type ℓ} → Option A → Bool
is_set none = false
is_set (some _) = true

unfoldable pub explicit_limits_in : Option LoadAwareConfig → Bool
explicit_limits_in none = false
explicit_limits_in (some c) = is_set c.eviction_limit_total || is_set c.eviction_limit_node

-- `hasExplicitLimits`.
unfoldable pub has_explicit_limits : Option ProfileOptions → Bool
unfolding explicit_limits_in
has_explicit_limits none = false
has_explicit_limits (some o) = explicit_limits_in o.load_aware

unfoldable pub explicit_config_in : Option VirtHigherDensityConfig → Bool
explicit_config_in none = false
explicit_config_in (some c) = is_set c.ksm_configuration || is_set c.memory_to_request_ratio

-- `hasExplicitConfig`.
unfoldable pub has_explicit_config : Option ProfileOptions → Bool
unfolding explicit_config_in
has_explicit_config none = false
has_explicit_config (some o) = explicit_config_in o.virt_higher_density

abbrev is_load_aware : Concrete → Bool
is_load_aware Concrete.load_aware = true
is_load_aware _ = false

abbrev is_higher_density : Concrete → Bool
is_higher_density Concrete.virt_higher_density = true
is_higher_density _ = false

-- (changed, reason).
abbrev unchanged : Bool × String
unchanged = (false, "")

module _ (env : Env) where
  extract_applied_hco_config : Item → M (Bool × ℤ)
  extract_applied_hco_config item = do
    reply ← get_object env hyper_converged_gvk item.target_ref.name item.target_ref.namespace
    on_reply reply
        (λ hco.
          let ksm = get_nested_map env hco ("spec" ∷ "ksmConfiguration" ∷ []) in
          let memory =
            on_nested (get_nested_int64 env hco overcommit_path)
              (λ n. return (is_present ksm, int32 n))
              (raise "memoryOvercommitPercentage not found in HCO spec.higherWorkloadDensity")
              raise in
          on_nested ksm (λ _. memory) memory raise)
        (λ e. raise ("failed to get HCO CR: " ⊕ e)) (λ e. raise ("failed to get HCO CR: " ⊕ e))

  limit_path : String → List String
  limit_path field = "spec" ∷ "evictionLimits" ∷ field ∷ []

  applied_node_limit : Value → ℤ → M (ℤ × ℤ)
  unfolding limit_path
  applied_node_limit descheduler total =
      on_nested (get_nested_int64 env descheduler (limit_path "node"))
        (λ n. return (total, int32 n)) (return (total, pos 0)) raise

  unfoldable pub extract_applied_eviction_limits : Item → M (ℤ × ℤ)
  unfolding limit_path applied_node_limit
  extract_applied_eviction_limits item = do
    reply ← get_object env kube_descheduler_gvk item.target_ref.name item.target_ref.namespace
    on_reply reply
        (λ descheduler.
          on_nested (get_nested_int64 env descheduler (limit_path "total"))
            (λ n. applied_node_limit descheduler (int32 n)) (applied_node_limit descheduler (pos 0))
            raise)
        (λ e. raise ("failed to get descheduler: " ⊕ e))
        (λ e. raise ("failed to get descheduler: " ⊕ e))

  unfoldable pub limits_differ : ℤ × ℤ → ℤ × ℤ → Bool × String
  limits_differ current applied =
      if current.0 != applied.0
      then (
        true,
        "HCO parallelMigrationsPerCluster changed (scaled "
            ⊕ env.format_int applied.0
            ⊕ " -> "
            ⊕ env.format_int current.0
            ⊕ ")",
      )
      else if current.1 != applied.1
      then (
        true,
        "HCO parallelOutboundMigrationsPerNode changed (scaled "
            ⊕ env.format_int applied.1
            ⊕ " -> "
            ⊕ env.format_int current.1
            ⊕ ")",
      )
      else unchanged

  format_bool : Bool → String
  format_bool true = "true"
  format_bool false = "false"

  config_differs : Bool × ℤ → Bool × ℤ → Bool × String
  unfolding format_bool
  config_differs current applied =
      if current.0 != applied.0
      then (
        true,
        "HCO KSM configuration changed (was "
            ⊕ format_bool applied.0
            ⊕ ", now "
            ⊕ format_bool current.0
            ⊕ ")",
      )
      else if current.1 != applied.1
      then (
        true,
        "HCO memoryOvercommitPercentage changed ("
            ⊕ env.format_int applied.1
            ⊕ " -> "
            ⊕ env.format_int current.1
            ⊕ ")",
      )
      else unchanged

  module _ (registry : Registry) where
    unfoldable pub hco_input_dependencies_changed : M (Bool × String)
    unfolding extract_applied_eviction_limits limits_differ
    hco_input_dependencies_changed = do
      plan ← reads (λ c. c)
      let spec = plan.spec
      if spec.profile != load_aware_name
          then return unchanged
          else if has_explicit_limits spec.options
          then return unchanged
          else unless_error (lift (get_profile env registry spec.profile)) (λ _. return unchanged)
              λ profile.
                if not (is_load_aware profile.concrete)
                then return unchanged
                else unless_error
                    (get_eviction_limits env (options_to_map env spec.profile spec.options))
                    (λ _. return unchanged)
                    λ current.
                      if_nil (find_descheduler_item plan.status.items) (return unchanged) λ item.
                        unless_error (extract_applied_eviction_limits item) (λ _. return unchanged)
                          (λ applied. return (limits_differ current applied))

    unfoldable pub hco_higher_density_config_changed : M (Bool × String)
    unfolding extract_applied_hco_config config_differs
    hco_higher_density_config_changed = do
      plan ← reads (λ c. c)
      let spec = plan.spec
      if spec.profile != higher_density_name
          then return unchanged
          else if has_explicit_config spec.options
          then return unchanged
          else unless_error (lift (get_profile env registry spec.profile)) (λ _. return unchanged)
              λ profile.
                if not (is_higher_density profile.concrete)
                then return unchanged
                else unless_error (get_hco_config env) (λ _. return unchanged)
                    λ current. if_nil (find_hco_item plan.status.items) (return unchanged) λ item.
                      unless_error (extract_applied_hco_config item) (λ _. return unchanged)
                        (λ applied. return (config_differs current applied))

    -- The two checks, the second where the first finds no change.
    unfoldable pub hco_changed : M (Bool × String)
    hco_changed = do
      first ← hco_input_dependencies_changed
      if first.0 then return first else hco_higher_density_config_changed
