-- ===== src/Controller/InProgress/Lock.antt =====
-- The optimistic lock: a plan whose snapshot is stale is not executed.
use virt_advisor_operator.Base.{
  String, Bool, true, false, Option, none, some, ◌≡◌, ◌≢◌, refl, sym, subst, not, ◌||◌, ◌⊕◌, arith,
  ◌==◌, string_eq, if◌then◌else◌,
}
use virt_advisor_operator.Api.{PlanPhase}
use virt_advisor_operator.Kube.{
  Env, State, Outcome, done, fail, M, final, ◌>>=◌, raise, reads, unless_error, writes, now,
  update_status, update_reply,
}
use virt_advisor_operator.Kube.Applied.{applied, NoApply-Reading}
use virt_advisor_operator.Plan.Hash.{compute_current_state_hash}
use virt_advisor_operator.Plan.Quiet.{Follows-compute_current_state_hash}
use virt_advisor_operator.Controller.{update_phase}
use virt_advisor_operator.Controller.Items.{are_all_items_pending}
use virt_advisor_operator.Controller.Execution.{check_optimistic_lock, compare_hash}
use virt_advisor_operator.Controller.InProgress.{handle_in_progress_phase}

abbrev pub IsError {ℓ} : {A : Type ℓ} → Outcome A → Type 0
IsError (done a t) = ⊥
IsError (fail e t) = Unit

-- The run ends with an error in the Failed phase, and applied nothing.
abbrev pub Refused {ℓ} : {A : Type ℓ} → State → Outcome A → Type 0
Refused s o =
    IsError o
    × ((final o).plan.status.phase ≡ PlanPhase.failed)
    × (applied (final o).history ≡ applied s.history)

-- The hash of the cluster is another one, or cannot be computed.
abbrev pub Mismatch : String → Outcome String → Type 0
Mismatch stored (done hash t) = hash ≢ stored
Mismatch stored (fail e t) = Unit

Refused-bind {ℓ κ} :
    {A : Type ℓ} {B : Type κ} (s : State) (m : M A) (k : A → M B) (t : State)
    → Refused s (m t)
    → Refused s ((m >>= k) t)
unfolding ◌>>=◌ final
Refused-bind s m k t h = go (m t) h
  where
    go :
        (o : Outcome _)
        → Refused s o
        → Refused s (elim o [ done a u ↦ k a u | fail e u ↦ fail e u ])
    go (done a u) h = absurd h.0
    go (fail e u) h = h

is_other : (a b : String) → a ≢ b → (a == b) ≡ false
is_other a b n = ground (arith, string_eq.equal_iff a b)

-- The three guards of the lock.
locked {ℓ} :
    {A : Type ℓ} (pending unset bypass : Bool) (skip check : A)
    → pending ≡ true
    → unset ≡ false
    → bypass ≡ false
    → (if not pending || unset then skip else if bypass then skip else check) ≡ check
locked pending unset bypass skip check p u b = rw (p, u, b) refl

module _ (env : Env) where
  answered :
      (r : Option String) (e : String) (s t : State)
      → t.plan.status.phase ≡ PlanPhase.failed
      → applied t.history ≡ applied s.history
      → Refused s ((update_reply r >>= λ _. raise {A = Unit {0}} e) t)
  unfolding update_reply ◌>>=◌ raise final
  answered none e s t h k = (tt, h, k)
  answered (some x) e s t h k = (tt, h, k)

  Refused-fail :
      (message e : String) (s t : State)
      → applied t.history ≡ applied s.history
      → Refused s ((update_phase env PlanPhase.failed message >>= λ _. raise {A = Unit {0}} e) t)
  unfolding update_phase ◌>>=◌ now writes update_status
  Refused-fail message e s t h = answered _ e s _ refl h

  Refused-hash :
      (o : Outcome String) (stored : String) (s : State)
      → Mismatch stored o
      → applied (final o).history ≡ applied s.history
      → Refused s (
          (unless_error
              (λ _. o)
              (λ e.
                update_phase env PlanPhase.failed
                  ("Failed to verify cluster state before execution: " ⊕ e)
                >>= λ _. raise ("hash computation failed - execution aborted: " ⊕ e))
              (λ current. compare_hash env current stored))
            s)
  unfolding unless_error compare_hash final
  Refused-hash (done hash t) stored s h k = rw (is_other hash stored h) (Refused-fail _ _ s t k)
  Refused-hash (fail e t) stored s h k = Refused-fail _ _ s t k

  Refused-lock :
      (s : State)
      → are_all_items_pending s.plan.status.items ≡ true
      → s.plan.status.source_snapshot_hash ≢ ""
      → s.plan.spec.bypass_optimistic_lock ≡ false
      → Mismatch s.plan.status.source_snapshot_hash
          (compute_current_state_hash env s.plan.status.items s)
      → Refused s (check_optimistic_lock env s)
  unfolding check_optimistic_lock reads ◌>>=◌ unless_error
  Refused-lock s pending stored bypass mismatch =
      subst {A = M (Unit {0})} (λ m. Refused s (m s))
        (sym
          (locked _ _ _ _ _ pending (is_other s.plan.status.source_snapshot_hash "" stored) bypass))
        (Refused-hash (compute_current_state_hash env s.plan.status.items s) _ s mismatch
          ((Follows-compute_current_state_hash NoApply-Reading env s.plan.status.items).at s))

  -- Let every item be pending, the stored snapshot not be empty, and the lock not be bypassed. If the
  -- state of the cluster hashes to another value than the stored one, or cannot be hashed, the handler
  -- of InProgress ends with an error in the Failed phase and applies nothing.
  pub handle_in_progress_phase-Refused :
      (s : State)
      → are_all_items_pending s.plan.status.items ≡ true
      → s.plan.status.source_snapshot_hash ≢ ""
      → s.plan.spec.bypass_optimistic_lock ≡ false
      → Mismatch s.plan.status.source_snapshot_hash
          (compute_current_state_hash env s.plan.status.items s)
      → Refused s (handle_in_progress_phase env s)
  unfolding handle_in_progress_phase
  handle_in_progress_phase-Refused s pending stored bypass mismatch =
      Refused-bind s (check_optimistic_lock env) _ s (Refused-lock s pending stored bypass mismatch)
