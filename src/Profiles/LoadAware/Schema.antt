-- ===== src/Profiles/LoadAware/Schema.antt =====
-- crdSupportsEvictionLimitNode of internal/profiles/loadaware/profile.go.
use virt_advisor_operator.Base.{
  String, Bool, true, false, Option, none, some, List, [], ◌∷◌, ◌==◌, if◌then◌else◌, string_eq, ◌⊕◌,
}
use virt_advisor_operator.Api.Json.{Schema, schema, unset, last, property}
use virt_advisor_operator.Kube.{Env, M, State, ◌>>=◌, return, raise, on_reply, get_object}
use virt_advisor_operator.Kube.Effects.{Follows, follow_rules}
use virt_advisor_operator.Kube.Applied.{Reading, quiet_rules}
use virt_advisor_operator.Discovery.{crd_gvk}
use virt_advisor_operator.Profiles.LoadAware.Selection.{kube_descheduler_crd}

-- `schema.Properties[name]`; a nil map has no entry.
unfoldable pub property_of : Schema → String → Option Schema
property_of (schema unset) name = none
property_of (schema last) name = none
property_of (schema (property k s ps)) name =
    let rest = property_of (schema ps) name in if k == name then some s else rest

is_some : Option Schema → Bool
is_some none = false
is_some (some _) = true

and_then : Option Schema → (Schema → Option Schema) → Option Schema
and_then none f = none
and_then (some s) f = f s

-- Whether a version of the CRD has `spec.evictionLimits.node`.
unfoldable pub has_node : Option (Option Schema) → Bool
unfolding is_some and_then
has_node none = false
has_node (some none) = false
has_node (some (some s)) = is_some (
    and_then (and_then (property_of s "spec") (λ spec. property_of spec "evictionLimits"))
      (λ limits. property_of limits "node"))

-- The loop over the versions.
unfoldable pub any_node : List (Option (Option Schema)) → Bool
any_node [] = false
any_node (v ∷ vs) = let rest = any_node vs in if has_node v then true else rest

abbrev no_crd : String → M Bool
no_crd e = raise ("failed to get CRD " ⊕ kube_descheduler_crd ⊕ ": " ⊕ e)

module _ (env : Env) where
  unfoldable pub crd_supports_eviction_limit_node : M Bool
  crd_supports_eviction_limit_node = do
    reply ← get_object env crd_gvk kube_descheduler_crd ""
    on_reply reply (λ crd. return (any_node (env.crd_versions crd))) no_crd no_crd

pub Follows-crd_supports_eviction_limit_node :
    {R : State → State → Type 0}
    → Reading R
    → (env : Env) → Follows R (crd_supports_eviction_limit_node env)
unfolding crd_supports_eviction_limit_node
Follows-crd_supports_eviction_limit_node base env = search (follow_rules, quiet_rules) depth 8
