-- ===== src/Profiles/Eviction.antt =====
-- The eviction limits of internal/profiles/loadaware/profile.go.
pub mod Scale
use virt_advisor_operator.Base.{
  String, Bool, true, false, Option, none, some, List, [], ◌∷◌, ◌&&◌, ◌==◌, ◌!=◌, if◌then◌else◌,
  string_eq,
}
use virt_advisor_operator.Base.Int.{ℤ, pos, ltb_ℤ, int32, ◌+ℤ◌, ◌-ℤ◌, ◌*ℤ◌, quot}
use virt_advisor_operator.Api.Json.{Value}
use virt_advisor_operator.Kube.{
  Env, M, Nested, present, absent, invalid, GroupVersionKind, ◌>>=◌, return, on_reply, get_object,
}
use virt_advisor_operator.Util.{get_nested_int64}
use virt_advisor_operator.Profiles.{ConfigMap, lookup}

-- internal/profiles/profileutils/hco.go: the HyperConverged resource.
abbrev pub hyper_converged_gvk : GroupVersionKind
hyper_converged_gvk = record {
  group = "hco.kubevirt.io";
  version = "v1beta1";
  kind = "HyperConverged";
}

abbrev pub hyper_converged_name : String
hyper_converged_name = "kubevirt-hyperconverged"

abbrev pub hyper_converged_namespace : String
hyper_converged_namespace = "openshift-cnv"

-- `computeScaledEvictionLimit`, in int32 arithmetic.
unfoldable pub compute_scaled_eviction_limit : ℤ → ℤ
compute_scaled_eviction_limit hco_value =
    if ltb_ℤ hco_value (pos 10)
    then hco_value
    else int32 (pos 10 +ℤ quot (int32 (int32 (hco_value -ℤ pos 10) *ℤ pos 4)) 5)

-- `if found && limit > 0 { int32(limit) } else { default }`; an error leaves found false.
abbrev limit_or : Nested ℤ → ℤ → ℤ
limit_or (present n) d = if ltb_ℤ (pos 0) n then int32 n else d
limit_or absent d = d
limit_or (invalid _) d = d

abbrev pub migration_config : String → List String
migration_config field = "spec" ∷ "liveMigrationConfig" ∷ field ∷ []

-- The value of an override that is a positive number.
abbrev pub positive : Option ℤ → Option ℤ
positive none = none
positive (some n) = if ltb_ℤ (pos 0) n then some n else none

abbrev pub int_or : Option ℤ → ℤ → ℤ
int_or none d = d
int_or (some n) d = n

module _ (env : Env) where
  -- `getHCOMigrationLimits`: (total, node).
  unfoldable pub get_hco_migration_limits : M (ℤ × ℤ)
  get_hco_migration_limits = do
    reply ← get_object env hyper_converged_gvk hyper_converged_name hyper_converged_namespace
    on_reply reply
        (λ hco. return (
          limit_or (get_nested_int64 env hco (migration_config "parallelMigrationsPerCluster"))
              (pos 5),
          limit_or (get_nested_int64 env hco (migration_config "parallelOutboundMigrationsPerNode"))
              (pos 2),
        ))
        (λ _. return (pos 5, pos 2)) (λ _. return (pos 5, pos 2))

  -- `if val, ok := m[key]; ok && val != "" { … Sscanf … parsed > 0 }`.
  unfoldable pub provided_limit : ConfigMap → String → Option ℤ
  provided_limit m key = elim (lookup key m) [
    | none ↦ none
    | some text ↦ if text != "" then positive (env.scan_int32 text) else none
  ]

  unfoldable pub scaled_limits : Option ℤ → Option ℤ → M (ℤ × ℤ)
  scaled_limits (some total) (some node) = return (total, node)
  scaled_limits total node = do
    hco ← get_hco_migration_limits
    return (
      int_or total (compute_scaled_eviction_limit hco.0),
      int_or node (compute_scaled_eviction_limit hco.1),
    )

  -- `getEvictionLimits`: (total, node). It returns no error.
  unfoldable pub get_eviction_limits : ConfigMap → M (ℤ × ℤ)
  get_eviction_limits m =
      scaled_limits (provided_limit m "evictionLimitTotal") (provided_limit m "evictionLimitNode")
