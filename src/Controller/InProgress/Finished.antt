-- ===== src/Controller/InProgress/Finished.antt =====
-- Items whose execution is over are not applied again.
use mathlib.Core.Option.{some-injective, none-ne-some}
use virt_advisor_operator.Base.{
  ℕ, zero, suc, Bool, false, Option, none, some, List, [], ◌∷◌, map, ◌≡◌, ◌⊎◌, refl, sym, ap, subst,
  ◌∙◌, inl, inr, All, ◌==◌, get_elem?, if_true, if_false,
}
use virt_advisor_operator.Api.{PlanPhase, ItemState, Item, state_eq}
use virt_advisor_operator.Kube.{
  Env, State, Outcome, done, fail, M, final, ◌>>=◌, return, raise, reads, if_nil,
}
use virt_advisor_operator.Kube.Applied.{applied, NoApply}
use virt_advisor_operator.Kube.Effects.{Follows}
use virt_advisor_operator.Kube.Endings.{Ending, Ends, Ends-Follows}
use virt_advisor_operator.Controller.{item_at}
use virt_advisor_operator.Controller.Steps.{Moves}
use virt_advisor_operator.Controller.Unchanged.{Unchanged, unchanged_rules}
use virt_advisor_operator.Controller.Execution.{
  check_optimistic_lock, check_item_drift, refresh_item_diff, update_status_logged,
  finalize_in_progress_phase,
}
use virt_advisor_operator.Controller.InProgress.{
  Progress, go_on, stopped, in_progress_item, in_progress_items, finish, handle_in_progress_phase,
}
use virt_advisor_operator.Controller.Quiet.{effect_rules}
use virt_advisor_operator.Controller.Quiet.Execution.{Follows-check_optimistic_lock, Follows-finish}
use virt_advisor_operator.Controller.Reconcile.Machine.{NoApply-Quiet}

abbrev pub state_of : Item → ItemState
state_of item = item.state

abbrev pub IsOver : ItemState → Type 0
IsOver state = (state ≡ ItemState.completed) ⊎ (state ≡ ItemState.failed)

-- The execution of every item is over.
abbrev pub Finished : List Item → Type 0
Finished items = All IsOver (map state_of items)

abbrev Kept : State → State → Type 0
Kept s t = Unchanged state_of s t × NoApply s t

abbrev finished : Ending
finished = record {
  Pre = λ s. Finished s.plan.status.items;
  Kept = Kept;
  Post = Kept;
  carries = λ s t k p. subst (All IsOver) (sym k.0) p;
  absorbs = λ s t u k q. (q.0 ∙ k.0, q.1 ∙ k.1);
  stops = λ s t k. k;
}

both {ℓ} :
    {A : Type ℓ} (m : M A) → Follows (Unchanged state_of) m → Follows NoApply m → Ends finished m
both m f g = Ends-Follows m (record { at = λ s. (f.at s, g.at s) })

IsOver-get_elem? :
    (items : List Item) (i : ℕ) (x : Item)
    → Finished items
    → get_elem? items i ≡ some x
    → IsOver x.state
IsOver-get_elem? [] i x h e = absurd (none-ne-some x e)
IsOver-get_elem? (y ∷ items) zero x h e = subst (λ z. IsOver z.state) (some-injective y x e) h.0
IsOver-get_elem? (y ∷ items) (suc i) x h e = IsOver-get_elem? items i x h.1 e

module _ {ℓ κ} {A : Type ℓ} {B : Type κ} where
  chained :
      (o : Outcome A) (k : A → M B) (s : State)
      → Finished s.plan.status.items
      → Kept s (final o)
      → ((a : A) → Ends finished (k a))
      → Kept s (final (elim o [ done a t ↦ k a t | fail e t ↦ fail e t ]))
  unfolding final
  chained (done a t) k s p q ek =
      finished.absorbs s t (final (k a t)) q ((ek a).at t (finished.carries s t q p))
  chained (fail e t) k s p q ek = q

  Ends-chain :
      (m : M A) (k : A → M B)
      → Ends finished m
      → ((a : A) → Ends finished (k a))
      → Ends finished (m >>= k)
  unfolding ◌>>=◌
  Ends-chain m k em ek = record { at = λ s p. chained (m s) k s p (em.at s p) ek }

module _ {ℓ} {A : Type ℓ} (k : Item → M A)
    (ek : (x : Item) → IsOver x.state → Ends finished (k x)) where
  picked :
      (o : Option Item) (s : State)
      → Finished s.plan.status.items
      → ((x : Item) → o ≡ some x → IsOver x.state)
      → Kept s (
          final (elim (if_nil o (raise "index out of range") return s) [
            | done x t ↦ k x t
            | fail e t ↦ fail e t
          ]))
  unfolding if_nil raise return final
  picked none s p h = (refl, refl)
  picked (some x) s p h = (ek x (h x refl)).at s p

  Ends-item_at : (i : ℕ) → Ends finished (item_at i >>= k)
  unfolding item_at ◌>>=◌ reads
  Ends-item_at i = record {
    at = λ s p.
        picked (get_elem? s.plan.status.items i) s p
          (λ x e. IsOver-get_elem? s.plan.status.items i x p e);
  }

module _ (env : Env) where
  -- What is left of the state of each item.
  States-refresh_item_diff : (i : ℕ) → Follows (Unchanged state_of) (refresh_item_diff env i)
  unfolding refresh_item_diff
  States-refresh_item_diff i = search unchanged_rules depth 12

  States-update_status_logged : Follows (Unchanged state_of) (update_status_logged env)
  unfolding update_status_logged
  States-update_status_logged = search unchanged_rules

  States-check_item_drift : (i : ℕ) → Follows (Unchanged state_of) (check_item_drift env i)
  unfolding check_item_drift
  States-check_item_drift i =
      search (unchanged_rules, States-refresh_item_diff, States-update_status_logged) depth 12

  States-check_optimistic_lock : Follows (Unchanged state_of) (check_optimistic_lock env)
  unfolding check_optimistic_lock
  States-check_optimistic_lock = search unchanged_rules depth 24

  States-finalize : (b : Bool) → Follows (Unchanged state_of) (finalize_in_progress_phase env b)
  unfolding finalize_in_progress_phase
  States-finalize b = search unchanged_rules depth 24

  States-finish : (p : Progress) → Follows (Unchanged state_of) (finish env p)
  unfolding finish
  States-finish stopped = search unchanged_rules
  States-finish (go_on b) = search (unchanged_rules, States-finalize) depth 8

  Ends-in_progress_item : (i : ℕ) (b : Bool) → Ends finished (in_progress_item env i b)
  unfolding in_progress_item
  Ends-in_progress_item i b =
      let quiet = NoApply-Quiet in
      Ends-item_at _
        (λ x over. elim over [
          | inl e ↦ rw (if_true _ _ (ap (λ q. q == ItemState.completed) e)) (
              both _ (search (unchanged_rules, States-check_item_drift) depth 8)
                (search effect_rules depth 8))
          | inr e ↦ rw (if_false _ _ (ap (λ q. q == ItemState.completed) e)) (
              rw (if_true _ _ (ap (λ q. q == ItemState.failed) e))
                (both _ (search unchanged_rules) (search effect_rules)))
        ])
        i

  Ends-in_progress_items :
      (rounds : List ℕ) (b : Bool) → Ends finished (in_progress_items env rounds b)
  unfolding in_progress_items
  Ends-in_progress_items [] b =
      let quiet = NoApply-Quiet in both _ (search unchanged_rules) (search effect_rules)
  Ends-in_progress_items (i ∷ rest) b =
      let quiet = NoApply-Quiet in
      Ends-chain _ _ (Ends-in_progress_item i b) elim [
        | go_on c ↦ Ends-in_progress_items rest c
        | stopped ↦ both _ (search unchanged_rules) (search effect_rules)
      ]

  Ends-handle_in_progress_phase : Ends finished (handle_in_progress_phase env)
  unfolding handle_in_progress_phase
  Ends-handle_in_progress_phase =
      let quiet = NoApply-Quiet in
      let moves : (phase : PlanPhase) → Moves NoApply phase = λ phase s t message. refl in
      Ends-chain _ _
        (both _ States-check_optimistic_lock
          (Follows-check_optimistic_lock quiet env (moves PlanPhase.failed)))
        λ _. Ends-chain _ _ (both _ (search unchanged_rules) (search effect_rules)) λ rounds.
          Ends-chain _ _ (Ends-in_progress_items rounds false) λ p. both _ (States-finish p) (
            Follows-finish quiet env (moves PlanPhase.completed_with_errors)
              (moves PlanPhase.drifted) (moves PlanPhase.completed) p)

  -- Let the execution of every item be over. Then a run of handleInProgressPhase, whether or not it
  -- returns an error, applies no object and leaves the state of each item.
  pub handle_in_progress_phase-Finished :
      (s : State)
      → Finished s.plan.status.items
      → let t = final (handle_in_progress_phase env s) in
        (map state_of t.plan.status.items ≡ map state_of s.plan.status.items)
        × (applied t.history ≡ applied s.history)
  handle_in_progress_phase-Finished s = Ends-handle_in_progress_phase.at s
