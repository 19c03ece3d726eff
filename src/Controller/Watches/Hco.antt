-- ===== src/Controller/Watches/Hco.antt =====
-- hcoConfigPredicate and enqueueHCODependentConfigs of
-- internal/controller/virtplatformconfig_watches.go.
use virt_advisor_operator.Base.{
  String, Bool, true, false, not, Option, none, some, List, [], ◌∷◌, ◌==◌, ◌!=◌, ◌&&◌, ◌||◌,
  string_eq,
}
use virt_advisor_operator.Api.{
  Config, PlanPhase, ProfileOptions, LoadAwareConfig, VirtHigherDensityConfig,
}
use virt_advisor_operator.Api.Json.{Value, null}
use virt_advisor_operator.Kube.{Env, Result, ok, err, Nested, present, absent, invalid}
use virt_advisor_operator.Util.{get_nested_map}
use virt_advisor_operator.Profiles.{load_aware_name, higher_density_name}
use virt_advisor_operator.Controller.Hco.{is_set}
use virt_advisor_operator.Controller.Watches.{
  Event, created, updated, deleted, generic, unstructured, typed, requests_for, listed_or_none,
}

module _ (env : Env) where
  -- `v, _, _ := GetNestedMap(…)`: a map that is not found is nil.
  unfoldable pub map_or_nil : Nested Value → Value
  map_or_nil (present v) = v
  map_or_nil absent = null
  map_or_nil (invalid e) = null

  -- `b, _ := json.Marshal(v); string(b)`.
  unfoldable pub text_of : Value → String
  text_of v = elim (env.marshal v) [ ok text ↦ text | err _ ↦ "" ]

  unfoldable pub section_changed : String → Value → Value → Bool
  section_changed field old new =
      text_of (map_or_nil (get_nested_map env old ("spec" ∷ field ∷ [])))
      != text_of (map_or_nil (get_nested_map env new ("spec" ∷ field ∷ [])))

  -- `configChanged`.
  unfoldable pub config_changed : Value → Value → Bool
  config_changed old new =
      section_changed "liveMigrationConfig" old new
      || section_changed "higherWorkloadDensity" old new
      || section_changed "ksmConfiguration" old new

  unfoldable pub hco_config_predicate : Event → Bool
  hco_config_predicate (created object) = true
  hco_config_predicate (updated (unstructured old) (unstructured new)) = config_changed old new
  hco_config_predicate (updated typed new) = false
  hco_config_predicate (updated (unstructured old) typed) = false
  hco_config_predicate (deleted object) = false
  hco_config_predicate (generic object) = false

-- The phases in which a change of the HyperConverged resource counts.
unfoldable pub cares_about_hco : PlanPhase → Bool
cares_about_hco PlanPhase.completed = true
cares_about_hco PlanPhase.completed_with_errors = true
cares_about_hco PlanPhase.review_required = true
cares_about_hco _ = false

unfoldable pub limits_given : Option LoadAwareConfig → Bool
limits_given none = false
limits_given (some c) = is_set c.eviction_limit_total || is_set c.eviction_limit_node

-- `hasExplicitLimits` of this function.
unfoldable pub gives_limits : Option ProfileOptions → Bool
unfolding limits_given
gives_limits none = false
gives_limits (some o) = limits_given o.load_aware

unfoldable pub config_given : Option VirtHigherDensityConfig → Bool
config_given none = false
config_given (some c) = is_set c.ksm_configuration || is_set c.memory_to_request_ratio

-- `hasExplicitConfig` of this function.
unfoldable pub gives_config : Option ProfileOptions → Bool
unfolding config_given
gives_config none = false
gives_config (some o) = config_given o.virt_higher_density

-- `shouldEnqueue`.
unfoldable pub depends_on_hco : Config → Bool
depends_on_hco config =
    (config.spec.profile == load_aware_name && not (gives_limits config.spec.options))
    || (config.spec.profile == higher_density_name && not (gives_config config.spec.options))

unfoldable pub waits_for_hco : Config → Bool
waits_for_hco config = cares_about_hco config.status.phase && depends_on_hco config

unfoldable pub enqueue_hco_dependent_configs : Result (List Config) → List String
enqueue_hco_dependent_configs listed = listed_or_none listed (requests_for waits_for_hco)
