-- ===== src/Controller/Items.antt =====
-- The pure helpers on plan items of internal/controller/virtplatformconfig_controller.go.
pub mod Severity
pub mod Comparison
use virt_advisor_operator.Base.{
  ℕ, zero, suc, String, Bool, true, false, not, Option, none, some, List, [], ◌∷◌, ◌&&◌, ◌||◌, ◌==◌,
  ◌!=◌, ltb, if◌then◌else◌, string_eq, nat_eq, any, all, length, has_prefix, contains,
}
use virt_advisor_operator.Api.{
  Impact, impact_eq, ItemState, state_eq, Item, reference_eq, ConditionStatus, is_true, status_eq,
  Condition,
}
use virt_advisor_operator.Kube.{Env, ok, err}
use virt_advisor_operator.Plan.Diff.{split_lines}

-- The map `severity`; a missing key gives 0.
abbrev pub severity : Impact → ℕ
severity Impact.low = 1
severity Impact.medium = 2
severity Impact.high = 3
severity Impact.unset = 0

unfoldable pub compare_impact_levels : Impact → Impact → Bool
compare_impact_levels a b = ltb (severity b) (severity a)

-- The loop of aggregateImpactFromItems.
unfoldable pub worst_impact : Impact → List Item → Impact
unfolding compare_impact_levels
worst_impact worst [] = worst
worst_impact worst (item ∷ items) =
    worst_impact
      (if item.impact_severity == Impact.unset
        then worst
        else if compare_impact_levels item.impact_severity worst
        then item.impact_severity
        else worst)
      items

unfoldable pub aggregate_impact_from_items : List Item → Impact
unfolding worst_impact
aggregate_impact_from_items [] = Impact.unset
aggregate_impact_from_items (item ∷ items) = worst_impact Impact.low (item ∷ items)

-- A line of a diff that is no header and begins with `+` or `-`.
changes : String → Bool
unfolding has_prefix
changes line =
    (has_prefix line "+" || has_prefix line "-")
    && not (has_prefix line "---")
    && not (has_prefix line "+++")

unfoldable pub is_no_change_diff : String → Bool
unfolding contains changes split_lines
is_no_change_diff diff =
    if diff == ""
    then true
    else if contains diff "(no changes)"
    then true
    else not (any changes (split_lines diff))

unfoldable pub are_all_items_pending : List Item → Bool
are_all_items_pending = all (λ item. item.state == ItemState.pending)

unfoldable pub are_all_items_completed : List Item → Bool
are_all_items_completed =
    all (λ item. item.state == ItemState.completed || item.state == ItemState.failed)

abbrev pub drift_message : String
drift_message = "Configuration has drifted from desired state"

-- The test of the three loops that look for an item that drifted.
unfoldable pub has_item_drift : List Item → Bool
has_item_drift = any (λ item. item.state == ItemState.completed && item.message == drift_message)

-- The loops that look for a True condition of a type.
unfoldable pub has_true_condition : String → List Condition → Bool
has_true_condition type = any (λ c. c.type == type && c.status == is_true)

unfoldable pub same_texts : List String → List String → Bool
same_texts [] [] = true
same_texts (a ∷ xs) (b ∷ bs) = let rest = same_texts xs bs in if a == b then rest else false
same_texts _ _ = false

module _ (env : Env) where
  -- `b, _ := json.Marshal(raw); string(b)`: after an error the text is empty.
  unfoldable pub raw_text : String → String
  raw_text raw = elim (env.marshal_raw raw) [ ok text ↦ text | err _ ↦ "" ]

  -- The stored JSON differs, or is there for one item only.
  unfoldable pub desired_state_differs : Option String → Option String → Bool
  unfolding raw_text
  desired_state_differs none none = false
  desired_state_differs (some a) (some b) = raw_text a != raw_text b
  desired_state_differs _ _ = true

  unfoldable pub item_config_differs : Item → Item → Bool
  unfolding desired_state_differs same_texts
  item_config_differs current applied =
      current.target_ref != applied.target_ref
      || current.impact_severity != applied.impact_severity
      || desired_state_differs current.desired_state applied.desired_state
      || not (same_texts current.managed_fields applied.managed_fields)

  -- `appliedMap[name]`: of two items with one name the later one.
  unfoldable pub applied_item : String → List Item → Option Item
  applied_item name [] = none
  applied_item name (item ∷ items) = elim (applied_item name items) [
    | some later ↦ some later
    | none ↦ if item.name == name then some item else none
  ]

  unfoldable pub differs_from : Option Item → Item → Bool
  unfolding item_config_differs
  differs_from none current = true
  differs_from (some applied) current = item_config_differs current applied

  unfoldable pub plan_items_differ : List Item → List Item → Bool
  unfolding differs_from
  plan_items_differ current applied =
      length current != length applied
      || any (λ item. differs_from (applied_item item.name applied) item) current
