-- ===== src/Profiles/Density.antt =====
-- GetHCOConfigForTesting of internal/profiles/higherdensity/profile.go.
use virt_advisor_operator.Base.{String, Bool, true, false, List, [], ◌∷◌}
use virt_advisor_operator.Base.Int.{ℤ, int32}
use virt_advisor_operator.Api.Json.{Value}
use virt_advisor_operator.Kube.{
  Env, M, Nested, present, absent, invalid, ◌>>=◌, return, raise, on_reply, on_nested, get_object,
}
use virt_advisor_operator.Util.{get_nested_int64, get_nested_map}
use virt_advisor_operator.Profiles.Eviction.{
  hyper_converged_gvk, hyper_converged_name, hyper_converged_namespace,
}

abbrev pub is_present : Nested Value → Bool
is_present (present _) = true
is_present absent = false
is_present (invalid _) = false

abbrev pub overcommit_path : List String
overcommit_path = "spec" ∷ "higherWorkloadDensity" ∷ "memoryOvercommitPercentage" ∷ []

module _ (env : Env) where
  -- (ksmEnabled, memoryPct). A map that is found is not nil.
  unfoldable pub get_hco_config : M (Bool × ℤ)
  get_hco_config = do
    reply ← get_object env hyper_converged_gvk hyper_converged_name hyper_converged_namespace
    on_reply reply
        (λ hco.
          let ksm_enabled =
            is_present (get_nested_map env hco ("spec" ∷ "ksmConfiguration" ∷ [])) in
          on_nested (get_nested_int64 env hco overcommit_path) (λ n. return (ksm_enabled, int32 n))
            (raise "memoryOvercommitPercentage not found in HCO CR")
            (λ _. raise "memoryOvercommitPercentage not found in HCO CR"))
        raise raise
