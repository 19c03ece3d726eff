-- ===== src/Controller/Unchanged.antt =====
-- A part of the plan items that a function leaves as it is, item by item.
use virt_advisor_operator.Base.{
  ℕ, zero, suc, String, Option, none, some, List, [], ◌∷◌, map, ◌≡◌, refl, sym, ap, ◌∙◌, get_elem?,
  set,
}
use mathlib.Core.Option.{some-injective}
use virt_advisor_operator.Api.{PlanPhase, Item, Status}
use virt_advisor_operator.Kube.{Env, State, final, writes}
use virt_advisor_operator.Kube.Effects.{IsPreorder, Follows, follow_rules, Follows-bind}
use virt_advisor_operator.Kube.Applied.{Reading, Follows-now, Follows-update_status, quiet_rules}
use virt_advisor_operator.Plan.Quiet.{quiet_plan}
use virt_advisor_operator.Controller.{
  set_status, set_item, item_at, item_indices, update_item, write_item, update_phase,
}

module _ {C : Type 0} (part : Item → C) where
  abbrev pub Unchanged : State → State → Type 0
  Unchanged s t = map part t.plan.status.items ≡ map part s.plan.status.items

  pub same_plan : (s t : State) → t.plan ≡ s.plan → Unchanged s t
  same_plan s t e = ap (λ c. map part c.status.items) e

  pub Unchanged-IsPreorder : IsPreorder Unchanged
  Unchanged-IsPreorder = record { same = λ s. refl; chain = λ s t u p q. q ∙ p }

  pub Unchanged-Reading : Reading Unchanged
  Unchanged-Reading = record { order = Unchanged-IsPreorder; reading = λ s t r. same_plan s t r.0 }

module _ {C : Type 0} {part : Item → C} where
  module _ (f : Item → Item) (keeps : (x : Item) → part (f x) ≡ part x) where
    map-set :
        (items : List Item) (i : ℕ) (x : Item)
        → get_elem? items i ≡ some x
        → map part (set items i (f x)) ≡ map part items
    map-set [] i x h = refl
    map-set (y ∷ items) zero x h =
        ap (λ c. c ∷ map part items) (keeps x ∙ ap part (sym (some-injective y x h)))
    map-set (y ∷ items) (suc i) x h = ap (λ l. part y ∷ l) (map-set items i x h)

    map-write_item :
        (items : List Item) (i : ℕ) (o : Option Item)
        → get_elem? items i ≡ o
        → map part (write_item items i f o) ≡ map part items
    unfolding write_item
    map-write_item items i none h = refl
    map-write_item items i (some x) h = map-set items i x h

    map-update_item :
        (i : ℕ) (items : List Item) → map part (update_item i f items) ≡ map part items
    unfolding update_item
    map-update_item i items = map-write_item items i (get_elem? items i) refl

    pub Follows-set_item : (i : ℕ) → Follows (Unchanged part) (set_item i f)
    unfolding set_item set_status writes final
    Follows-set_item i = record { at = λ s. map-update_item i s.plan.status.items }

  pub Follows-set_status :
      (f : Status → Status)
      → ((x : Status) → (f x).items ≡ x.items)
      → Follows (Unchanged part) (set_status f)
  unfolding set_status writes final
  Follows-set_status f h = record { at = λ s. ap (map part) (h s.plan.status) }

  pub Follows-item_at : (i : ℕ) → Follows (Unchanged part) (item_at i)
  unfolding item_at
  Follows-item_at i = search (follow_rules, Unchanged-IsPreorder)

  pub Follows-item_indices : Follows (Unchanged part) item_indices
  unfolding item_indices
  Follows-item_indices = search (follow_rules, Unchanged-IsPreorder)

  pub Follows-update_phase :
      (env : Env) (phase : PlanPhase) (message : String)
      → Follows (Unchanged part) (update_phase env phase message)
  unfolding update_phase writes final
  Follows-update_phase env phase message =
      Follows-bind (Unchanged-IsPreorder part) _ _ (Follows-now (Unchanged-Reading part) env) λ t.
        Follows-bind (Unchanged-IsPreorder part) _ _ (record { at = λ s. refl })
          λ _. Follows-update_status (Unchanged-Reading part) env

pub ruleset unchanged_rules = (
  follow_rules, quiet_rules, quiet_plan, Unchanged-IsPreorder, Unchanged-Reading, Follows-set_item,
  Follows-set_status, Follows-item_at, Follows-item_indices, Follows-update_phase, refl,
)
