-- ===== src/Controller/Quiet/Execution.antt =====
-- handleInProgressPhase keeps every relation that reading, applying, writing to the status and its
-- own changes of the phase keep.
use virt_advisor_operator.Base.{ℕ, String, Bool, List, [], ◌∷◌, ◌≡◌, refl, inl}
use virt_advisor_operator.Api.{PlanPhase, Item}
use virt_advisor_operator.Api.Json.{Value}
use virt_advisor_operator.Kube.{
  Env, State, Result, ok, err, lift, final, patch_object, ApplyOptions,
}
use virt_advisor_operator.Kube.Effects.{Follows, Follows-bind}
use virt_advisor_operator.Kube.Applied.{Sends}
use virt_advisor_operator.Controller.Steps.{Quiet, Moves}
use virt_advisor_operator.Plan.{execute_item, apply_unstructured}
use virt_advisor_operator.Controller.Execution.{
  check_optimistic_lock, handle_item_failure, process_item_execution, handle_item_wait_timeout,
  check_item_health, finalize_in_progress_phase,
}
use virt_advisor_operator.Controller.InProgress.{
  Progress, go_on, stopped, in_progress_item, in_progress_items, finish, handle_in_progress_phase,
}
use virt_advisor_operator.Controller.Quiet.{effect_rules, Follows-refresh_item_diff}

-- A relation that applying an object keeps.
abbrev pub Applies : (State → State → Type 0) → Type 0
Applies R = (s t : State) → t.plan ≡ s.plan → Sends s t → R s t

module _ {R : State → State → Type 0} (quiet : Quiet R) (applies : Applies R) (env : Env) where
  answered : (r : Result Value) (s t : State) → t.plan ≡ s.plan → Sends s t → R s (final (lift r t))
  unfolding lift final
  answered (ok v) s t h k = applies s t h k
  answered (err e) s t h k = applies s t h k

  Follows-apply : (v : Value) (o : ApplyOptions) → Follows R (apply_unstructured env v o)
  unfolding apply_unstructured patch_object
  Follows-apply v o = record { at = λ s. answered _ s _ refl (λ c m. inl m) }

  pub Follows-execute_item : (item : Item) → Follows R (execute_item env item)
  unfolding execute_item
  Follows-execute_item item = search (effect_rules, Follows-apply) depth 16

module _ {R : State → State → Type 0} (quiet : Quiet R) (env : Env)
    (fails : Moves R PlanPhase.failed) where
  pub Follows-check_optimistic_lock : Follows R (check_optimistic_lock env)
  unfolding check_optimistic_lock
  Follows-check_optimistic_lock = search effect_rules depth 24

  pub Follows-handle_item_failure :
      (i : ℕ) (message error : String) → Follows R (handle_item_failure env i message error)
  unfolding handle_item_failure
  Follows-handle_item_failure i message error = search effect_rules depth 24

  Follows-handle_item_wait_timeout :
      (i : ℕ) (progress : String) → Follows R (handle_item_wait_timeout env i progress)
  unfolding handle_item_wait_timeout
  Follows-handle_item_wait_timeout i progress =
      search (effect_rules, Follows-handle_item_failure) depth 24

  pub Follows-check_item_health : (i : ℕ) → Follows R (check_item_health env i)
  unfolding check_item_health
  Follows-check_item_health i =
      search
        (
          effect_rules, Follows-handle_item_failure, Follows-handle_item_wait_timeout,
          Follows-refresh_item_diff,
        )
        depth 24

module _ {R : State → State → Type 0} (quiet : Quiet R) (applies : Applies R) (env : Env)
    (fails : Moves R PlanPhase.failed) where
  pub Follows-process_item_execution : (i : ℕ) → Follows R (process_item_execution env i)
  unfolding process_item_execution
  Follows-process_item_execution i =
      search (effect_rules, Follows-handle_item_failure, Follows-execute_item) depth 24

  Follows-in_progress_item :
      (i : ℕ) (has_failures : Bool) → Follows R (in_progress_item env i has_failures)
  unfolding in_progress_item
  Follows-in_progress_item i has_failures =
      search (effect_rules, Follows-process_item_execution, Follows-check_item_health) depth 24

  pub Follows-in_progress_items :
      (rounds : List ℕ) (has_failures : Bool)
      → Follows R (in_progress_items env rounds has_failures)
  unfolding in_progress_items
  Follows-in_progress_items [] has_failures = search effect_rules
  Follows-in_progress_items (i ∷ rest) has_failures =
      Follows-bind quiet.order _ _ (Follows-in_progress_item i has_failures)
        elim [ go_on b ↦ Follows-in_progress_items rest b | stopped ↦ search effect_rules ]

module _ {R : State → State → Type 0} (quiet : Quiet R) (env : Env)
    (errs : Moves R PlanPhase.completed_with_errors) (drifts : Moves R PlanPhase.drifted)
    (completes : Moves R PlanPhase.completed) where
  Follows-finalize : (b : Bool) → Follows R (finalize_in_progress_phase env b)
  unfolding finalize_in_progress_phase
  Follows-finalize b = search effect_rules depth 24

  pub Follows-finish : (p : Progress) → Follows R (finish env p)
  unfolding finish
  Follows-finish stopped = search effect_rules
  Follows-finish (go_on b) = search (effect_rules, Follows-finalize) depth 8

module _ {R : State → State → Type 0} (quiet : Quiet R) (applies : Applies R) (env : Env)
    (fails : Moves R PlanPhase.failed) (errs : Moves R PlanPhase.completed_with_errors)
    (drifts : Moves R PlanPhase.drifted) (completes : Moves R PlanPhase.completed) where
  pub Follows-handle_in_progress_phase : Follows R (handle_in_progress_phase env)
  unfolding handle_in_progress_phase
  Follows-handle_in_progress_phase =
      search
        (effect_rules, Follows-check_optimistic_lock, Follows-in_progress_items, Follows-finish)
        depth 8
