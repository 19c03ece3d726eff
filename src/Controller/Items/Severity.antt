-- ===== src/Controller/Items/Severity.antt =====
-- The impact of a plan is the worst impact of its items.
use virt_advisor_operator.Base.{
  true, List, [], ◌∷◌, ◌≡◌, ◌⊎◌, ◌≤◌, refl, inl, arith, ◌==◌, any, All, if◌then◌else◌, ltb,
}
use virt_advisor_operator.Api.{Impact, impact_eq, Item}
use virt_advisor_operator.Controller.Items.{
  severity, worst_impact, compare_impact_levels, aggregate_impact_from_items,
}

abbrev step : Impact → Item → Impact
step worst item =
    if item.impact_severity == Impact.unset
    then worst
    else if ltb (severity worst) (severity item.impact_severity)
    then item.impact_severity
    else worst

step-bound :
    (worst : Impact) (item : Item)
    → (severity worst ≤ severity (step worst item))
      × (severity item.impact_severity ≤ severity (step worst item))
step-bound worst item = ground arith

worst_impact-bound :
    (worst : Impact) (items : List Item)
    → (severity worst ≤ severity (worst_impact worst items))
      × All (λ item. severity item.impact_severity ≤ severity (worst_impact worst items)) items
unfolding worst_impact compare_impact_levels
worst_impact-bound worst [] = (omega arith, tt)
worst_impact-bound worst (item ∷ items) =
    let rest = worst_impact-bound (step worst item) items in
    let here = step-bound worst item in
    (omega (arith, rest.0, here.0), (omega (arith, rest.0, here.1), rest.1))

worst_impact-attained :
    (worst : Impact) (items : List Item)
    → (worst_impact worst items ≡ worst)
      ⊎ (any (λ item. item.impact_severity == worst_impact worst items) items ≡ true)
unfolding worst_impact compare_impact_levels
worst_impact-attained worst [] = inl refl
worst_impact-attained worst (item ∷ items) =
    ground
      (arith, worst_impact-attained worst items, worst_impact-attained item.impact_severity items)

-- For a plan that has items, the aggregate is at least Low and at least the severity of each item,
-- and it is Low or the severity of one of them.
aggregate_impact_from_items-worst :
    (item : Item) (items : List Item)
    → let worst = aggregate_impact_from_items (item ∷ items) in
      (1 ≤ severity worst)
      × All (λ x. severity x.impact_severity ≤ severity worst) (item ∷ items)
      × ((worst ≡ Impact.low) ⊎ (any (λ x. x.impact_severity == worst) (item ∷ items) ≡ true))
unfolding aggregate_impact_from_items
aggregate_impact_from_items-worst item items =
    let bound = worst_impact-bound Impact.low (item ∷ items) in
    (bound.0, bound.1, worst_impact-attained Impact.low (item ∷ items))
