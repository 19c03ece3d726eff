-- ===== src/Profiles/Builder.antt =====
-- internal/profiles/profileutils/builder.go: PlanItemBuilder. The context and the client are the
-- environment; `Build` is called once on a builder, so what it fills in is not kept.
pub mod Laws
use virt_advisor_operator.Base.{
  String, Option, none, some, List, [], ◌==◌, if◌then◌else◌, string_eq, ◌⊕◌,
}
use virt_advisor_operator.Api.{Item, ItemState, Impact, impact_eq, ObjectReference}
use virt_advisor_operator.Api.Json.{Value}
use virt_advisor_operator.Kube.{
  Env, State, M, ◌>>=◌, return, raise, lift, unless_error, if_nil, on_reply,
}
use virt_advisor_operator.Kube.Effects.{Follows, follow_rules, Follows-if_nil}
use virt_advisor_operator.Kube.Applied.{Reading, quiet_rules}
use virt_advisor_operator.Plan.{get_unstructured}
use virt_advisor_operator.Plan.Diff.{generate_ssa_diff}
use virt_advisor_operator.Plan.Quiet.{quiet_plan}

pub record PlanItemBuilder : Type 0 where
  pub field_manager : String
  pub desired : Option Value
  pub name : String
  pub managed_fields : List String
  pub impact_severity : Impact
  pub message : String

unfoldable pub new_plan_item_builder : String → PlanItemBuilder
new_plan_item_builder field_manager = record {
  field_manager = field_manager;
  desired = none;
  name = "";
  managed_fields = [];
  impact_severity = Impact.unset;
  message = "";
}

unfoldable pub for_resource : Value → String → PlanItemBuilder → PlanItemBuilder
for_resource desired name b = record b { desired = some desired; name = name }

unfoldable pub with_managed_fields : List String → PlanItemBuilder → PlanItemBuilder
with_managed_fields fields b = record b { managed_fields = fields }

unfoldable pub with_impact : Impact → PlanItemBuilder → PlanItemBuilder
with_impact impact b = record b { impact_severity = impact }

unfoldable pub with_message : String → PlanItemBuilder → PlanItemBuilder
with_message message b = record b { message = message }

module _ (env : Env) where
  -- The impact that Build gives the item.
  unfoldable pub build_impact : Impact → Value → M Impact
  build_impact impact desired =
      if impact == Impact.unset
      then get_unstructured env (env.gvk_of desired) (env.name_of desired)
          (env.namespace_of desired)
        >>= (λ reply.
            on_reply reply (λ _. return Impact.low) (λ _. return Impact.medium)
              (λ e. raise ("failed to check if resource exists: " ⊕ e)))
      else return impact

  unfoldable pub build_message : String → Value → String
  build_message message desired =
      if message == ""
      then (env.gvk_of desired).kind ⊕ " '" ⊕ env.name_of desired ⊕ "' will be configured"
      else message

  -- `TargetRef` of the item.
  abbrev pub target_of : Value → ObjectReference
  target_of desired = record {
    api_version = env.group_version_text (env.gvk_of desired);
    kind = (env.gvk_of desired).kind;
    name = env.name_of desired;
    namespace = env.namespace_of desired;
  }

  -- The literal at the end of Build.
  abbrev pub built_item : PlanItemBuilder → Value → Impact → String → String → Item
  built_item b desired impact diff bytes = record {
    name = b.name;
    target_ref = target_of desired;
    impact_severity = impact;
    diff = diff;
    desired_state = some bytes;
    state = ItemState.pending;
    message = build_message b.message desired;
    last_transition_time = none;
    managed_fields = b.managed_fields;
  }

  -- The calls that end Build, once the required fields are there.
  unfoldable pub build_for : PlanItemBuilder → Value → M Item
  build_for b desired = build_impact b.impact_severity desired >>= λ impact.
      unless_error (generate_ssa_diff env desired b.field_manager)
        (λ e. raise ("failed to generate SSA diff: " ⊕ e))
        λ diff.
          unless_error (lift (env.marshal desired))
            (λ e. raise ("failed to marshal desired state: " ⊕ e))
            λ bytes. return (built_item b desired impact diff bytes)

  unfoldable pub build : PlanItemBuilder → M Item
  unfolding build_for
  build b = if_nil b.desired (raise "desired resource not set (use ForResource)") λ desired.
      if b.name == "" then raise "item name not set (use ForResource)" else build_for b desired

module _ {R : State → State → Type 0} (base : Reading R) (env : Env) where
  Follows-build_impact :
      (impact : Impact) (desired : Value) → Follows R (build_impact env impact desired)
  unfolding build_impact
  Follows-build_impact impact desired = search (follow_rules, quiet_rules, quiet_plan) depth 8

  Follows-build_for : (b : PlanItemBuilder) (desired : Value) → Follows R (build_for env b desired)
  unfolding build_for
  Follows-build_for b desired =
      search (follow_rules, quiet_rules, quiet_plan, Follows-build_impact) depth 12

  pub Follows-build : (b : PlanItemBuilder) → Follows R (build env b)
  unfolding build
  Follows-build b =
      Follows-if_nil b.desired _ _ (search (follow_rules, quiet_rules))
        λ desired. search (follow_rules, quiet_rules, Follows-build_for) depth 8
