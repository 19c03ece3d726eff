-- ===== src/Controller/Drafting/DryRun.antt =====
-- A plan with action DryRun that changes something is not executed by handleDraftingPhase.
use virt_advisor_operator.Base.{
  ℕ, String, Bool, true, false, not, List, [], ◌∷◌, ◌≡◌, ◌⊎◌, refl, sym, ap, subst, ◌∙◌, inl, inr,
  All, any, map, ◌==◌, ◌||◌, Bool-cases, if_true, if◌then◌else◌, arith, ◌⊕◌,
}
use virt_advisor_operator.Api.{PlanPhase, PlanAction, action_eq, Item}
use virt_advisor_operator.Kube.{
  Env, State, M, Result, ok, err, lift, unless_error, final, ◌>>=◌, reads,
}
use virt_advisor_operator.Kube.Endings.{
  Ending, Ends, Ends-Follows, Ends-bind, Ends-unless_error, Ends-if_nil,
}
use virt_advisor_operator.Kube.Effects.{Follows, Follows-bind}
use virt_advisor_operator.Conditions.Texts
use virt_advisor_operator.Discovery.{Prerequisite, check_prerequisites}
use virt_advisor_operator.Profiles.{Registry, Profile}
use virt_advisor_operator.Controller.{update_phase}
use virt_advisor_operator.Controller.Items.{is_no_change_diff, has_true_condition}
use virt_advisor_operator.Controller.Steps.{Quiet, Quiet-writes, Moves}
use virt_advisor_operator.Controller.Unchanged.{Unchanged, Unchanged-IsPreorder, unchanged_rules}
use virt_advisor_operator.Controller.Drafting.{
  settle_item, settle_items, settle, propose, store_plan, generate, after_prerequisites,
  handle_drafting_phase,
}
use virt_advisor_operator.Controller.Quiet.{Follows-update_phase, effect_rules}
use virt_advisor_operator.Controller.Quiet.Inputs.{
  Follows-generate_plan_items, QuietProfile, QuietRegistry, OnProfile, get_profile-Quiet,
}
use virt_advisor_operator.Controller.Reconcile.Quiet.{Follows-ensure_impact_level}
use virt_advisor_operator.Controller.Reconcile.Machine.{OneOf, PhaseIn, PhaseIn-Quiet}

abbrev stops : List PlanPhase
stops = PlanPhase.review_required ∷ PlanPhase.prerequisite_failed ∷ PlanPhase.failed ∷ []

abbrev pub diff_of : Item → String
diff_of item = item.diff

-- Diffs that show no change.
abbrev pub NoChanges : List Item → Type 0
NoChanges items = All (λ diff. is_no_change_diff diff ≡ true) (map diff_of items)

abbrev Kept : State → State → Type 0
Kept s t = (t.plan.spec.action ≡ s.plan.spec.action) × PhaseIn stops s t

Kept-Quiet : Quiet Kept
Kept-Quiet =
    let phases = PhaseIn-Quiet stops in
    Quiet-writes
      (record {
        order = record {
          same = λ s. (refl, inl refl);
          chain = λ s t u p q. (q.0 ∙ p.0, phases.order.chain s t u p.1 q.1);
        };
        reading = λ s t r. (ap (λ c. c.spec.action) r.0, inl (ap (λ c. c.status.phase) r.0));
      })
      (λ s status e. (refl, inl e))

abbrev drafted : Ending
drafted = record {
  Pre = λ s. s.plan.spec.action ≡ PlanAction.dry_run;
  Kept = Kept;
  Post = λ s t. PhaseIn stops s t ⊎ NoChanges t.plan.status.items;
  carries = λ s t k p. k.0 ∙ p;
  absorbs = λ s t u k q. elim q [
    | inl e ↦ inl ((PhaseIn-Quiet stops).order.chain s t u k.1 e)
    | inr n ↦ inr n
  ];
  stops = λ s t k. inl k.1;
}

moves : (p : PlanPhase) → OneOf stops p → Moves Kept p
moves p o s t message = (refl, inr o)

none_changed :
    (items : List Item)
    → any (λ item. not (is_no_change_diff item.diff)) items ≡ false
    → NoChanges items
none_changed [] e = tt
none_changed (item ∷ items) e = elim (Bool-cases (is_no_change_diff item.diff)) [
  | inl h ↦ (h, none_changed items (ground arith))
  | inr h ↦ ground arith
]

module _ (env : Env) where
  Unchanged-settle_item : (i : ℕ) → Follows (Unchanged diff_of) (settle_item env i)
  unfolding settle_item
  Unchanged-settle_item i = search unchanged_rules depth 16

  Unchanged-settle_items :
      (rounds : List ℕ) (b : Bool) → Follows (Unchanged diff_of) (settle_items env rounds b)
  unfolding settle_items
  Unchanged-settle_items [] b = search unchanged_rules
  Unchanged-settle_items (i ∷ rest) b =
      Follows-bind (Unchanged-IsPreorder diff_of) _ _ (Unchanged-settle_item i)
        (λ healthy. Unchanged-settle_items rest _)

  Unchanged-settle : Follows (Unchanged diff_of) (settle env)
  unfolding settle
  Unchanged-settle = search (unchanged_rules, Unchanged-settle_items) depth 24

  Ends-stop :
      (p : PlanPhase) (message : String) → OneOf stops p → Ends drafted (update_phase env p message)
  Ends-stop p message o = Ends-Follows _ (Follows-update_phase Kept-Quiet env p message (moves p o))

  Ends-propose : Ends drafted (propose env)
  unfolding propose ◌>>=◌ reads
  Ends-propose = record {
    at = λ s p.
        rw
          (if_true _ _ (
            ap
              (λ a.
                a == PlanAction.dry_run
                || has_true_condition Texts.input_drift s.plan.status.conditions)
              p))
          ((Ends-stop PlanPhase.review_required _ (inl refl)).at s p);
  }

  Ends-decide : Ends drafted (do
    current ← reads (λ c. c.status.items)
    if any (λ item. not (is_no_change_diff item.diff)) current then propose env else settle env)
  unfolding ◌>>=◌ reads
  Ends-decide = record {
    at = λ s p.
        elim (Bool-cases (any (λ item. not (is_no_change_diff item.diff)) s.plan.status.items)) [
          | inl e ↦ rw e (Ends-propose.at s p)
          | inr e ↦ rw e (
              inr (
                subst (All (λ diff. is_no_change_diff diff ≡ true)) (sym (Unchanged-settle.at s))
                  (none_changed s.plan.status.items e)))
        ];
  }

  module _ (registry : Registry) (profiles : QuietRegistry registry) where
    Ends-store_plan :
        (items : List Item) (hash : String) → Ends drafted (store_plan env registry items hash)
    unfolding store_plan
    Ends-store_plan items hash =
        let quiet = Kept-Quiet in
        Ends-bind _ _ (search effect_rules) λ spec. Ends-bind _ _ (search effect_rules) λ _.
          Ends-unless_error _ _ _ (search effect_rules) (λ e. Ends-Follows _ (search effect_rules))
            λ _.
              Ends-bind _ _ (Follows-ensure_impact_level quiet env registry profiles)
                λ _. Ends-decide

    Ends-generate : (p : Profile) → QuietProfile p → Ends drafted (generate env registry p)
    unfolding generate
    Ends-generate p q =
        let quiet = Kept-Quiet in
        Ends-bind _ _ (search effect_rules) λ spec.
          Ends-if_nil _ _ _
            (Ends-unless_error _ _ _ (Follows-generate_plan_items quiet p q _)
              (λ e. Ends-stop PlanPhase.failed _ (inr (inr (inl refl))))
              λ items.
                Ends-unless_error _ _ _ (search effect_rules)
                  (λ e. Ends-stop PlanPhase.failed _ (inr (inr (inl refl))))
                  (Ends-store_plan items))
            (λ e. Ends-stop PlanPhase.prerequisite_failed _ (inr (inl refl)))

    Ends-after_prerequisites :
        (p : Profile)
        → QuietProfile p
        → (missing : List Prerequisite) → Ends drafted (after_prerequisites env registry p missing)
    unfolding after_prerequisites
    Ends-after_prerequisites p q (m ∷ ms) =
        Ends-stop PlanPhase.prerequisite_failed _ (inr (inl refl))
    Ends-after_prerequisites p q [] =
        let quiet = Kept-Quiet in
        Ends-bind _ _ (search effect_rules) λ spec.
          Ends-if_nil _ _ _ (Ends-generate p q)
            (λ e. Ends-stop PlanPhase.prerequisite_failed _ (inr (inl refl)))

    Ends-with_profile :
        (p : Profile)
        → QuietProfile p
        → Ends drafted (
            unless_error
              (check_prerequisites env p.prerequisites)
              (λ e. update_phase env PlanPhase.failed ("Failed to check prerequisites: " ⊕ e))
              (after_prerequisites env registry p))
    Ends-with_profile p q =
        let quiet = Kept-Quiet in
        Ends-unless_error _ _ _ (search effect_rules)
          (λ e. Ends-stop PlanPhase.failed _ (inr (inr (inl refl)))) (Ends-after_prerequisites p q)

    Ends-looked_up :
        (r : Result Profile) (h : String → M (Unit {0})) (k : Profile → M (Unit {0}))
        → OnProfile r
        → ((e : String) → Ends drafted (h e))
        → ((p : Profile) → QuietProfile p → Ends drafted (k p))
        → Ends drafted (unless_error (lift r) h k)
    unfolding unless_error lift
    Ends-looked_up (ok p) h k q eh ek = record { at = (ek p q).at }
    Ends-looked_up (err e) h k q eh ek = record { at = (eh e).at }

    Ends-handle_drafting_phase : Ends drafted (handle_drafting_phase env registry)
    unfolding handle_drafting_phase
    Ends-handle_drafting_phase =
        let quiet = Kept-Quiet in
        Ends-bind _ _ (search effect_rules) λ name.
          Ends-looked_up _ _ _ (get_profile-Quiet env registry name profiles)
            (λ e. Ends-stop PlanPhase.prerequisite_failed _ (inr (inl refl))) Ends-with_profile

    -- Let every profile build its items from reads and dry runs, and the action be DryRun. Then
    -- handleDraftingPhase, whether or not it returns an error, leaves the phase as it is or moves to
    -- ReviewRequired, PrerequisiteFailed or Failed, unless in the end no diff of an item shows a
    -- change.
    pub handle_drafting_phase-dry_run :
        (s : State)
        → s.plan.spec.action ≡ PlanAction.dry_run
        → let t = final (handle_drafting_phase env registry s) in
          (t.plan.status.phase ≡ s.plan.status.phase)
          ⊎ OneOf
              (PlanPhase.review_required ∷ PlanPhase.prerequisite_failed ∷ PlanPhase.failed ∷ [])
              t.plan.status.phase
          ⊎ NoChanges t.plan.status.items
    handle_drafting_phase-dry_run s dry = elim (Ends-handle_drafting_phase.at s dry) [
      | inl (inl e) ↦ inl e
      | inl (inr o) ↦ inr (inl o)
      | inr n ↦ inr (inr n)
    ]
