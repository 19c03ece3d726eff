-- ===== src/Profiles/HigherDensity/Hco.antt =====
-- generateHCOItem of internal/profiles/higherdensity/profile.go, and LabelSelectorToMap of
-- internal/profiles/profileutils/hco.go.
use virt_advisor_operator.Base.{
  String, Bool, true, none, some, List, [], ◌∷◌, ◌!=◌, if◌then◌else◌, string_eq, ◌⊕◌, map,
}
use virt_advisor_operator.Base.Int.{ℤ, pos, int32}
use virt_advisor_operator.Api.{Item, Impact, LabelSelector, LabelRequirement}
use virt_advisor_operator.Api.Json.{Value, Fields, int, str, arr, obj, end, field, elements}
use virt_advisor_operator.Kube.{Env, State, M, ok, err, ◌>>=◌}
use virt_advisor_operator.Kube.Effects.{Follows, follow_rules}
use virt_advisor_operator.Kube.Applied.{Reading}
use virt_advisor_operator.Plan.{create_unstructured}
use virt_advisor_operator.Profiles.{ConfigMap, lookup, get_bool_config, get_int_config}
use virt_advisor_operator.Profiles.Builder.{
  PlanItemBuilder, new_plan_item_builder, for_resource, with_managed_fields, with_impact,
  with_message, build, Follows-build,
}
use virt_advisor_operator.Profiles.Eviction.{
  hyper_converged_gvk, hyper_converged_name, hyper_converged_namespace,
}
use virt_advisor_operator.Profiles.LoadAware.Items.{set_spec, Follows-set_spec}

-- A map of texts; its keys are distinct.
unfoldable pub text_fields : List (String × String) → Fields
text_fields [] = end
text_fields ((k, v) ∷ m) = field k (str v) (text_fields m)

values_field : List String → Fields
values_field [] = end
values_field (v ∷ vs) = field "values" (arr (elements (map str (v ∷ vs)))) end

requirement_map : LabelRequirement → Value
unfolding values_field
requirement_map expr =
    obj
      (field "key" (str expr.key) (field "operator" (str expr.operator) (values_field expr.values)))

expressions_field : List LabelRequirement → Fields
unfolding requirement_map
expressions_field [] = end
expressions_field (expr ∷ exprs) =
    field "matchExpressions" (arr (elements (map requirement_map (expr ∷ exprs)))) end

with_labels : List (String × String) → Fields → Fields
with_labels [] rest = rest
with_labels (label ∷ labels) rest = field "matchLabels" (obj (text_fields (label ∷ labels))) rest

-- `LabelSelectorToMap` of a selector that is not nil.
unfoldable pub label_selector_to_map : LabelSelector → Fields
unfolding with_labels expressions_field
label_selector_to_map selector =
    with_labels selector.match_labels (expressions_field selector.match_expressions)

module _ (env : Env) where
  -- The selector of the override, or else all nodes.
  unfoldable pub node_selector : String → Fields
  node_selector text = elim (env.unmarshal_selector text) [
    | ok selector ↦ label_selector_to_map selector
    | err _ ↦ end
  ]

  unfoldable pub ksm_selector : ConfigMap → Fields
  ksm_selector m = elim (lookup "ksmNodeLabelSelector" m) [
    | none ↦ end
    | some text ↦ if text != "" then node_selector text else end
  ]

  unfoldable pub memory_ratio : ConfigMap → ℤ
  memory_ratio m = int32 (get_int_config env m "memoryToRequestRatio" (pos 150))

  unfoldable pub ksm_enabled : ConfigMap → Bool
  ksm_enabled m = get_bool_config m "ksmEnabled" true

  unfoldable pub hco_spec : ConfigMap → Fields
  hco_spec m =
      field "higherWorkloadDensity"
        (obj (field "memoryOvercommitPercentage" (int (memory_ratio m)) end))
        (if ksm_enabled m
          then field "ksmConfiguration" (obj (field "nodeLabelSelector" (obj (ksm_selector m)) end))
              end
          else end)

  unfoldable pub hco_fields : ConfigMap → List String
  hco_fields m =
      "spec.higherWorkloadDensity.memoryOvercommitPercentage"
      ∷ (if ksm_enabled m then "spec.ksmConfiguration" ∷ [] else [])

  unfoldable pub hco_message : ConfigMap → String
  hco_message m =
      "HyperConverged '"
      ⊕ hyper_converged_name
      ⊕ "' will be configured with memoryOvercommitPercentage="
      ⊕ env.format_int (memory_ratio m)
      ⊕ (if ksm_enabled m then " and KSM enabled" else "")

  unfoldable pub hco_builder : ConfigMap → Value → PlanItemBuilder
  unfolding new_plan_item_builder for_resource with_managed_fields with_impact with_message
  hco_builder m desired = with_message (hco_message m) (
      with_impact Impact.medium (
        with_managed_fields (hco_fields m) (
          for_resource desired "configure-higher-density"
            (new_plan_item_builder "virt-advisor-operator"))))

  unfoldable pub generate_hco_item : ConfigMap → M Item
  generate_hco_item m =
      set_spec env
        (create_unstructured env hyper_converged_gvk hyper_converged_name hyper_converged_namespace)
        (hco_spec m)
      >>= λ desired. build env (hco_builder m desired)

pub Follows-hco_item :
    {R : State → State → Type 0}
    → Reading R
    → (env : Env) (m : ConfigMap) → Follows R (generate_hco_item env m)
unfolding generate_hco_item
Follows-hco_item base env m = search (follow_rules, Follows-set_spec, Follows-build) depth 8
