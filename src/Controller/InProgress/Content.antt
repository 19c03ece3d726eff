-- ===== src/Controller/InProgress/Content.antt =====
-- What an execution keeps of the items: handleInProgressPhase writes their state, message, time and diff
-- alone.
use virt_advisor_operator.Base.{ℕ, String, Bool, Option, List, [], ◌∷◌, map, ◌≡◌, refl}
use virt_advisor_operator.Api.{Item, Impact, ObjectReference}
use virt_advisor_operator.Api.Json.{Value}
use virt_advisor_operator.Kube.{
  Env, State, Result, ok, err, lift, final, patch_object, ApplyOptions,
}
use virt_advisor_operator.Kube.Effects.{Follows, Follows-bind}
use virt_advisor_operator.Plan.{execute_item, apply_unstructured}
use virt_advisor_operator.Controller.Unchanged.{
  Unchanged, Unchanged-IsPreorder, same_plan, unchanged_rules,
}
use virt_advisor_operator.Controller.Execution.{
  check_optimistic_lock, handle_item_failure, process_item_execution, handle_item_wait_timeout,
  check_item_health, check_item_drift, refresh_item_diff, update_status_logged,
  finalize_in_progress_phase,
}
use virt_advisor_operator.Controller.InProgress.{
  Progress, go_on, stopped, in_progress_item, in_progress_items, finish, handle_in_progress_phase,
}

-- What was reviewed of an item: its name, its target and the rest that says what is applied.
abbrev pub content : Item → String × ObjectReference × Impact × Option String × List String
content item =
    (item.name, item.target_ref, item.impact_severity, item.desired_state, item.managed_fields)

abbrev pub SameContent : State → State → Type 0
SameContent = Unchanged content

module _ (env : Env) where
  answered : (r : Result Value) (s t : State) → t.plan ≡ s.plan → SameContent s (final (lift r t))
  unfolding lift final
  answered (ok v) s t h = same_plan content s t h
  answered (err e) s t h = same_plan content s t h

  Follows-apply : (v : Value) (o : ApplyOptions) → Follows SameContent (apply_unstructured env v o)
  unfolding apply_unstructured patch_object
  Follows-apply v o = record { at = λ s. answered _ s _ refl }

  ruleset content_rules = (unchanged_rules, Follows-apply)

  Follows-execute_item : (item : Item) → Follows SameContent (execute_item env item)
  unfolding execute_item
  Follows-execute_item item = search content_rules depth 16

  Follows-update_status_logged : Follows SameContent (update_status_logged env)
  unfolding update_status_logged
  Follows-update_status_logged = search content_rules

  Follows-refresh_item_diff : (i : ℕ) → Follows SameContent (refresh_item_diff env i)
  unfolding refresh_item_diff
  Follows-refresh_item_diff i = search content_rules depth 12

  ruleset item_rules =
      (content_rules, Follows-execute_item, Follows-update_status_logged, Follows-refresh_item_diff)

  Follows-check_item_drift : (i : ℕ) → Follows SameContent (check_item_drift env i)
  unfolding check_item_drift
  Follows-check_item_drift i = search item_rules depth 12

  Follows-check_optimistic_lock : Follows SameContent (check_optimistic_lock env)
  unfolding check_optimistic_lock
  Follows-check_optimistic_lock = search item_rules depth 24

  Follows-handle_item_failure :
      (i : ℕ) (message error : String)
      → Follows SameContent (handle_item_failure env i message error)
  unfolding handle_item_failure
  Follows-handle_item_failure i message error = search item_rules depth 24

  Follows-handle_item_wait_timeout :
      (i : ℕ) (progress : String) → Follows SameContent (handle_item_wait_timeout env i progress)
  unfolding handle_item_wait_timeout
  Follows-handle_item_wait_timeout i progress =
      search (item_rules, Follows-handle_item_failure) depth 24

  Follows-process_item_execution : (i : ℕ) → Follows SameContent (process_item_execution env i)
  unfolding process_item_execution
  Follows-process_item_execution i = search (item_rules, Follows-handle_item_failure) depth 24

  Follows-check_item_health : (i : ℕ) → Follows SameContent (check_item_health env i)
  unfolding check_item_health
  Follows-check_item_health i =
      search (item_rules, Follows-handle_item_failure, Follows-handle_item_wait_timeout) depth 24

  Follows-in_progress_item :
      (i : ℕ) (has_failures : Bool) → Follows SameContent (in_progress_item env i has_failures)
  unfolding in_progress_item
  Follows-in_progress_item i has_failures =
      search
        (
          item_rules, Follows-check_item_drift, Follows-process_item_execution,
          Follows-check_item_health,
        )
        depth 24

  Follows-in_progress_items :
      (rounds : List ℕ) (has_failures : Bool)
      → Follows SameContent (in_progress_items env rounds has_failures)
  unfolding in_progress_items
  Follows-in_progress_items [] has_failures = search item_rules
  Follows-in_progress_items (i ∷ rest) has_failures =
      Follows-bind (Unchanged-IsPreorder content) _ _ (Follows-in_progress_item i has_failures)
        elim [ go_on b ↦ Follows-in_progress_items rest b | stopped ↦ search item_rules ]

  Follows-finalize : (b : Bool) → Follows SameContent (finalize_in_progress_phase env b)
  unfolding finalize_in_progress_phase
  Follows-finalize b = search item_rules depth 24

  Follows-finish : (p : Progress) → Follows SameContent (finish env p)
  unfolding finish
  Follows-finish stopped = search item_rules
  Follows-finish (go_on b) = search (item_rules, Follows-finalize) depth 8

  Follows-handle_in_progress_phase : Follows SameContent (handle_in_progress_phase env)
  unfolding handle_in_progress_phase
  Follows-handle_in_progress_phase =
      search (item_rules, Follows-check_optimistic_lock, Follows-in_progress_items, Follows-finish)
        depth 8

  -- An execution keeps what was reviewed: whatever the API server answers, and whether or not it
  -- returns an error, handleInProgressPhase leaves the number and the order of the items as they are,
  -- and of each its name, target, impact, desired state and managed fields.
  pub handle_in_progress_phase-content :
      (s : State)
      → map content (final (handle_in_progress_phase env s)).plan.status.items
        ≡ map content s.plan.status.items
  handle_in_progress_phase-content s = Follows-handle_in_progress_phase.at s
