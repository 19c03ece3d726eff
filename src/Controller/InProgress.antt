-- ===== src/Controller/InProgress.antt =====
-- handleInProgressPhase of internal/controller/virtplatformconfig_phases.go.
pub mod Lock
pub mod Terminal
pub mod Content
pub mod Finished
use virt_advisor_operator.Base.{ℕ, Bool, true, false, List, [], ◌∷◌, ◌==◌, if◌then◌else◌}
use virt_advisor_operator.Api.{ItemState, state_eq}
use virt_advisor_operator.Kube.{Env, M, ◌>>=◌, ◌>>◌, return, reads, attempt}
use virt_advisor_operator.Controller.{item_at, item_indices}
use virt_advisor_operator.Controller.Items.{are_all_items_completed}
use virt_advisor_operator.Controller.Execution.{
  check_optimistic_lock, check_item_drift, process_item_execution, check_item_health,
  finalize_in_progress_phase,
}

-- How a round of the loop ends: `continue` with hasFailures, or `return nil`.
pub data Progress : Type 0 where
  go_on : Bool → Progress
  stopped : Progress

module _ (env : Env) where
  run_item : ℕ → Bool → M Progress
  run_item i has_failures = do
    r ← process_item_execution env i
    if r.0 then return stopped else if r.1 then return (go_on true) else do
      -- `needsRetry` only decides whether to `continue` at the end of the body
      check_item_health env i
      return (go_on has_failures)

  -- The body of the loop.
  unfoldable pub in_progress_item : ℕ → Bool → M Progress
  unfolding run_item
  in_progress_item i has_failures = do
    item ← item_at i
    if item.state == ItemState.completed
        then (do attempt (check_item_drift env i); return (go_on has_failures))
        else if item.state == ItemState.failed
        then return (go_on true)
        else run_item i has_failures

  after_item : Progress → (Bool → M Progress) → M Progress
  after_item stopped k = return stopped
  after_item (go_on has_failures) k = k has_failures

  unfoldable pub in_progress_items : List ℕ → Bool → M Progress
  unfolding after_item
  in_progress_items [] has_failures = return (go_on has_failures)
  in_progress_items (i ∷ rest) has_failures =
      in_progress_item i has_failures >>= λ p. after_item p (in_progress_items rest)

  unfoldable pub finish : Progress → M (Unit {0})
  finish stopped = return tt
  finish (go_on has_failures) = do
    items ← reads (λ c. c.status.items)
    if are_all_items_completed items then finalize_in_progress_phase env has_failures else return tt

  unfoldable pub handle_in_progress_phase : M (Unit {0})
  unfolding finish
  handle_in_progress_phase = do
    check_optimistic_lock env
    rounds ← item_indices
    p ← in_progress_items rounds false
    finish p
