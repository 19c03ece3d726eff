-- ===== src/Profiles/Reading.antt =====
-- What the profiles ask of the cluster before they build an item: looking for CRDs and reading the
-- HyperConverged resource keep every relation that reading keeps.
use virt_advisor_operator.Base.{String, Option, none, some, List, [], ◌∷◌}
use virt_advisor_operator.Base.Int.{ℤ}
use virt_advisor_operator.Kube.{Env, State}
use virt_advisor_operator.Kube.Effects.{Follows, follow_rules, Follows-bind, Follows-unless_error}
use virt_advisor_operator.Kube.Applied.{Reading, quiet_rules}
use virt_advisor_operator.Discovery.{Prerequisite, crd_exists, check_prerequisites}
use virt_advisor_operator.Profiles.{ConfigMap}
use virt_advisor_operator.Profiles.Eviction.{
  get_hco_migration_limits, scaled_limits, get_eviction_limits,
}
use virt_advisor_operator.Profiles.Density.{get_hco_config}

module _ {R : State → State → Type 0} (base : Reading R) (env : Env) where
  pub Follows-crd_exists : (name : String) → Follows R (crd_exists env name)
  unfolding crd_exists
  Follows-crd_exists name = search (follow_rules, quiet_rules) depth 8

  pub Follows-check_prerequisites :
      (ps : List Prerequisite) → Follows R (check_prerequisites env ps)
  unfolding check_prerequisites
  Follows-check_prerequisites [] = search (follow_rules, quiet_rules)
  Follows-check_prerequisites (p ∷ ps) =
      Follows-unless_error base.order _ _ _ (Follows-crd_exists _)
        (λ e. search (follow_rules, quiet_rules))
        (λ exists.
          Follows-bind base.order _ _ (Follows-check_prerequisites ps)
            (λ missing. search (follow_rules, quiet_rules)))

  pub Follows-get_hco_migration_limits : Follows R (get_hco_migration_limits env)
  unfolding get_hco_migration_limits
  Follows-get_hco_migration_limits = search (follow_rules, quiet_rules) depth 8

  Follows-scaled_limits : (a b : Option ℤ) → Follows R (scaled_limits env a b)
  unfolding scaled_limits
  Follows-scaled_limits (some a) (some b) = search follow_rules
  Follows-scaled_limits none none =
      search (follow_rules, quiet_rules, Follows-get_hco_migration_limits) depth 8
  Follows-scaled_limits none (some b) =
      search (follow_rules, quiet_rules, Follows-get_hco_migration_limits) depth 8
  Follows-scaled_limits (some a) none =
      search (follow_rules, quiet_rules, Follows-get_hco_migration_limits) depth 8

  pub Follows-get_eviction_limits : (m : ConfigMap) → Follows R (get_eviction_limits env m)
  unfolding get_eviction_limits
  Follows-get_eviction_limits m = Follows-scaled_limits _ _

  pub Follows-get_hco_config : Follows R (get_hco_config env)
  unfolding get_hco_config
  Follows-get_hco_config = search (follow_rules, quiet_rules) depth 8

pub ruleset reading_rules =
    (Follows-check_prerequisites, Follows-get_eviction_limits, Follows-get_hco_config)
