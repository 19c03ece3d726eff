-- ===== src/Profiles/Example.antt =====
-- internal/profiles/example/profile.go: the profile of the demonstration.
use virt_advisor_operator.Base.{
  String, false, Option, none, some, List, [], ◌∷◌, if◌then◌else◌, ◌⊕◌,
}
use virt_advisor_operator.Api.{Item, ItemState, Impact}
use virt_advisor_operator.Api.Json.{Value, str, obj, end, field}
use virt_advisor_operator.Kube.{Env, State, M, return, raise, lift, unless_error}
use virt_advisor_operator.Kube.Effects.{Follows, follow_rules}
use virt_advisor_operator.Kube.Applied.{Reading}
use virt_advisor_operator.Profiles.{ConfigMap, Profile, Concrete}
use virt_advisor_operator.Profiles.LoadAware.Selection.{string_in_slice}

-- `Validate`: Go's order over the map is not fixed; this takes the entries in order.
unfoldable pub validate : Env → ConfigMap → Option String
unfolding string_in_slice
validate env [] = none
validate env ((key, _) ∷ m) =
    let rest = validate env m in
    if string_in_slice key ("replicas" ∷ "enabled" ∷ [])
    then rest
    else some ("unsupported config override: " ⊕ env.quote key)

abbrev pub desired_state : Value
desired_state = obj (
    field "apiVersion" (str "v1") (
      field "kind" (str "ConfigMap") (
        field "metadata"
          (obj (field "name" (str "example-config") (field "namespace" (str "openshift-cnv") end)))
          (field "data" (obj (field "example-key" (str "example-value") end)) end))))

abbrev example_item : String → Item
example_item raw = record {
  name = "configure-example-component";
  target_ref = record {
    api_version = "v1";
    kind = "ConfigMap";
    name = "example-config";
    namespace = "openshift-cnv";
  };
  impact_severity = Impact.low;
  diff =
      "--- example-config (ConfigMap)\n+++ example-config (ConfigMap)\n+  data:\n+    example-key: example-value\n";
  desired_state = some raw;
  state = ItemState.pending;
  message = "Waiting to apply configuration";
  last_transition_time = none;
  managed_fields = [];
}

module _ (env : Env) where
  unfoldable pub generate_plan_items : ConfigMap → M (List Item)
  generate_plan_items m =
      unless_error (lift (env.marshal desired_state))
        (λ e. raise ("failed to marshal desired state: " ⊕ e)) λ raw. return (example_item raw ∷ [])

  -- `NewExampleProfile` and the methods that return constants.
  abbrev pub example_profile : Profile
  example_profile = record {
    concrete = Concrete.other;
    name = "example-profile";
    prerequisites = [];
    managed_resource_types = [];
    validate = validate env;
    generate_plan_items = generate_plan_items;
    description = "Example profile for demonstration purposes only";
    category = "example";
    impact_summary = "None - Example profile with no real resources";
    impact_level = Impact.low;
    is_advertisable = false;
  }

pub Follows-example :
    {R : State → State → Type 0}
    → Reading R
    → (env : Env) (m : ConfigMap) → Follows R (generate_plan_items env m)
unfolding generate_plan_items
Follows-example base env m = search follow_rules depth 8
