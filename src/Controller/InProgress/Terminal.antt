-- ===== src/Controller/InProgress/Terminal.antt =====
-- The end of an execution: handleInProgressPhase leaves the phase only for Failed, or when no item is
-- left to execute.
use virt_advisor_operator.Base.{
  ℕ, Bool, true, false, List, [], ◌∷◌, ◌≡◌, ◌⊎◌, refl, sym, ap, subst, ◌∙◌, inl, inr, All, ◌==◌,
  ◌||◌, arith, Bool-cases, if◌then◌else◌,
}
use virt_advisor_operator.Api.{PlanPhase, ItemState, Item, Status, state_eq}
use virt_advisor_operator.Kube.{
  Env, State, Outcome, done, fail, M, final, ◌>>=◌, return, reads, writes,
}
use virt_advisor_operator.Kube.Effects.{IsPreorder, Follows, follow_rules, Follows-bind}
use virt_advisor_operator.Kube.Applied.{Reading, Follows-now, Follows-update_status, quiet_rules}
use virt_advisor_operator.Controller.Steps.{Quiet, Moves}
use virt_advisor_operator.Plan.Quiet.{quiet_plan}
use virt_advisor_operator.Controller.{set_status, update_phase, item_indices}
use virt_advisor_operator.Controller.Items.{are_all_items_completed}
use virt_advisor_operator.Controller.Execution.{finalize_in_progress_phase, check_optimistic_lock}
use virt_advisor_operator.Controller.InProgress.{
  Progress, go_on, stopped, finish, in_progress_items, handle_in_progress_phase,
}
use virt_advisor_operator.Controller.Quiet.{Follows-item_indices}
use virt_advisor_operator.Controller.Quiet.Execution.{
  Follows-check_optimistic_lock, Follows-in_progress_items,
}
use virt_advisor_operator.Controller.Reconcile.Machine.{PhaseIn, PhaseIn-Quiet}

-- The execution of the item is over.
abbrev pub Terminal : Item → Type 0
Terminal item = (item.state ≡ ItemState.completed) ⊎ (item.state ≡ ItemState.failed)

is_terminal_of :
    (state : ItemState)
    → (state == ItemState.completed || state == ItemState.failed) ≡ true
    → (state ≡ ItemState.completed) ⊎ (state ≡ ItemState.failed)
is_terminal_of ItemState.completed e = inl refl
is_terminal_of ItemState.failed e = inr refl
is_terminal_of _ e = ground arith

both : (a b : Bool) → (if a then b else false) ≡ true → (a ≡ true) × (b ≡ true)
both a b = ground arith

All-Terminal : (items : List Item) → are_all_items_completed items ≡ true → All Terminal items
unfolding are_all_items_completed
All-Terminal [] e = tt
All-Terminal (item ∷ items) e =
    let h = both _ _ e in (is_terminal_of item.state h.0, All-Terminal items h.1)

-- The items are the same.
abbrev SameItems : State → State → Type 0
SameItems s t = t.plan.status.items ≡ s.plan.status.items

SameItems-IsPreorder : IsPreorder SameItems
SameItems-IsPreorder = record { same = λ s. refl; chain = λ s t u p q. q ∙ p }

SameItems-Reading : Reading SameItems
SameItems-Reading = record {
  order = SameItems-IsPreorder;
  reading = λ s t r. ap (λ c. c.status.items) r.0;
}

-- The phase is as before or Failed, or no item is left to execute.
abbrev Ended : State → State → Type 0
Ended s t = PhaseIn (PlanPhase.failed ∷ []) s t ⊎ All Terminal t.plan.status.items

module _ (env : Env) where
  Follows-hash :
      (f : Status → Status)
      → ((x : Status) → (f x).items ≡ x.items)
      → Follows SameItems (set_status f)
  unfolding set_status writes final
  Follows-hash f h = record { at = λ s. h s.plan.status }

  Follows-phase :
      (phase : PlanPhase) (message : _) → Follows SameItems (update_phase env phase message)
  unfolding update_phase writes final
  Follows-phase phase message =
      Follows-bind SameItems-Reading.order _ _ (Follows-now SameItems-Reading env) λ t.
        Follows-bind SameItems-Reading.order _ _ (record { at = λ s. refl })
          λ _. Follows-update_status SameItems-Reading env

  Follows-finalize : (b : Bool) → Follows SameItems (finalize_in_progress_phase env b)
  unfolding finalize_in_progress_phase
  Follows-finalize b =
      search
        (
          follow_rules, quiet_rules, quiet_plan, Follows-hash, Follows-phase, SameItems-IsPreorder,
          SameItems-Reading,
        )
        depth 24

  Ended-finish : (p : Progress) (t : State) → Ended t (final (finish env p t))
  unfolding finish return final ◌>>=◌ reads
  Ended-finish stopped t = inl (inl refl)
  Ended-finish (go_on b) t = elim (Bool-cases (are_all_items_completed t.plan.status.items)) [
    | inl e ↦ rw e (inr (subst (All Terminal) (sym ((Follows-finalize b).at t)) (All-Terminal _ e)))
    | inr e ↦ rw e (inl (inl refl))
  ]

module _ {ℓ κ} {A : Type ℓ} {B : Type κ} (k : A → M B)
    (ends : (a : A) (t : State) → Ended t (final (k a t))) where
  continued :
      (s : State) (o : Outcome A)
      → PhaseIn (PlanPhase.failed ∷ []) s (final o)
      → Ended s (final (elim o [ done a t ↦ k a t | fail e t ↦ fail e t ]))
  unfolding final
  continued s (done a t) p = elim (ends a t) [
    | inl q ↦ inl ((PhaseIn-Quiet (PlanPhase.failed ∷ [])).order.chain s t (final (k a t)) p q)
    | inr q ↦ inr q
  ]
  continued s (fail e t) p = inl p

  Ended-bind :
      (m : M A)
      → Follows (PhaseIn (PlanPhase.failed ∷ [])) m
      → (s : State) → Ended s (final ((m >>= k) s))
  unfolding ◌>>=◌
  Ended-bind m f s = continued s (m s) (f.at s)

module _ (env : Env) where
  quiet : Quiet (PhaseIn (PlanPhase.failed ∷ []))
  quiet = PhaseIn-Quiet (PlanPhase.failed ∷ [])

  fails : Moves (PhaseIn (PlanPhase.failed ∷ [])) PlanPhase.failed
  fails s t message = inr (inl refl)

  run : List ℕ → M (Unit {0})
  run rounds = in_progress_items env rounds false >>= finish env

  Ended-run : (rounds : List ℕ) (s : State) → Ended s (final (run rounds s))
  unfolding run
  Ended-run rounds =
      Ended-bind (finish env) (Ended-finish env) (in_progress_items env rounds false) (
        Follows-in_progress_items quiet (λ s t e h. inl (ap (λ c. c.status.phase) e)) env fails
          rounds false)

  handle-Ended : (s : State) → Ended s (final (handle_in_progress_phase env s))
  unfolding handle_in_progress_phase run
  handle-Ended =
      Ended-bind _
        (λ u. Ended-bind _ (λ rounds. Ended-run rounds) item_indices (Follows-item_indices quiet))
        (check_optimistic_lock env) (Follows-check_optimistic_lock quiet env fails)

  -- A run of handleInProgressPhase, whether or not it returns an error, leaves the phase as it is
  -- or moves it to Failed, unless in the end every item is completed or failed.
  pub handle_in_progress_phase-Terminal :
      (s : State)
      → let t = final (handle_in_progress_phase env s) in
        (t.plan.status.phase ≡ s.plan.status.phase)
        ⊎ (t.plan.status.phase ≡ PlanPhase.failed)
        ⊎ All Terminal t.plan.status.items
  handle_in_progress_phase-Terminal s = elim (handle-Ended s) [
    | inl (inl e) ↦ inl e
    | inl (inr (inl e)) ↦ inr (inl e)
    | inl (inr (inr e)) ↦ absurd e
    | inr h ↦ inr (inr h)
  ]
