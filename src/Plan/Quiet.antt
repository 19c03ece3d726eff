-- ===== src/Plan/Quiet.antt =====
-- internal/plan: hashing, diffing and checking keep every relation that reading keeps.
use virt_advisor_operator.Base.{String, List, [], ◌∷◌, refl}
use virt_advisor_operator.Api.{Item}
use virt_advisor_operator.Api.Json.{Value, Fields}
use virt_advisor_operator.Kube.{Env, State, GroupVersionKind}
use virt_advisor_operator.Kube.Effects.{Follows, follow_rules, Follows-bind, Follows-unless_error}
use virt_advisor_operator.Kube.Applied.{Reading, Follows-patch_object, quiet_rules}
use virt_advisor_operator.Plan.{get_unstructured, apply_unstructured}
use virt_advisor_operator.Plan.Hash.{
  fetch_resource_for_hashing, collect_states, compute_current_state_hash, detect_drift,
}
use virt_advisor_operator.Plan.Diff.{generate_ssa_diff, dry_run_apply}
use virt_advisor_operator.Plan.Wait.{check_healthy}

module _ {R : State → State → Type 0} (base : Reading R) (env : Env) where
  pub Follows-get_unstructured :
      (gvk : GroupVersionKind) (name namespace : String)
      → Follows R (get_unstructured env gvk name namespace)
  unfolding get_unstructured
  Follows-get_unstructured gvk name namespace = search quiet_rules

  Follows-fetch :
      (item : Item) (gvk : GroupVersionKind) → Follows R (fetch_resource_for_hashing env item gvk)
  unfolding fetch_resource_for_hashing
  Follows-fetch item gvk = search (follow_rules, quiet_rules, Follows-get_unstructured) depth 8

  Follows-collect_states :
      (items : List Item) (states : Fields) → Follows R (collect_states env items states)
  unfolding collect_states
  Follows-collect_states [] states = search (follow_rules, quiet_rules)
  Follows-collect_states (item ∷ items) states =
      Follows-unless_error base.order _ _ _ (search (follow_rules, quiet_rules))
        (λ e. search (follow_rules, quiet_rules))
        (λ gv.
          Follows-bind base.order _ _ (Follows-fetch item _)
            (λ entry. Follows-collect_states items _))

  pub Follows-compute_current_state_hash :
      (items : List Item) → Follows R (compute_current_state_hash env items)
  unfolding compute_current_state_hash
  Follows-compute_current_state_hash items =
      search (follow_rules, quiet_rules, Follows-collect_states) depth 8

  pub Follows-detect_drift :
      (items : List Item) (stored : String) → Follows R (detect_drift env items stored)
  unfolding detect_drift
  Follows-detect_drift items stored =
      search (follow_rules, quiet_rules, Follows-compute_current_state_hash) depth 8

  Follows-dry_run_apply : (v : Value) (manager : String) → Follows R (dry_run_apply env v manager)
  unfolding dry_run_apply apply_unstructured
  Follows-dry_run_apply v manager =
      Follows-unless_error base.order _ _ _ (Follows-patch_object base env v _ refl)
        (λ e. search (follow_rules, quiet_rules)) (λ a. search (follow_rules, quiet_rules))

  pub Follows-generate_ssa_diff :
      (desired : Value) (manager : String) → Follows R (generate_ssa_diff env desired manager)
  unfolding generate_ssa_diff
  Follows-generate_ssa_diff desired manager =
      search (follow_rules, quiet_rules, Follows-get_unstructured, Follows-dry_run_apply) depth 12

  pub Follows-check_healthy : (item : Item) → Follows R (check_healthy env item)
  unfolding check_healthy
  Follows-check_healthy item = search (follow_rules, quiet_rules, Follows-get_unstructured) depth 12

pub ruleset quiet_plan = (
  Follows-get_unstructured, Follows-compute_current_state_hash, Follows-detect_drift,
  Follows-generate_ssa_diff, Follows-check_healthy,
)
