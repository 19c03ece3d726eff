-- ===== src/Profiles/Builder/Laws.antt =====
-- What PlanItemBuilder promises of an item that it builds, and why it may build none.
use virt_advisor_operator.Base.{
  String, none, some, ◌≡◌, ◌≢◌, refl, arith, ◌⊎◌, inl, inr, ◌==◌, string_eq, true, false,
}
use virt_advisor_operator.Api.{Item, ItemState, Impact, impact_eq}
use virt_advisor_operator.Api.Json.{Value}
use virt_advisor_operator.Kube.{Env, ok}
use virt_advisor_operator.Kube.Returns.{
  Returns, Returns-return, Returns-raise, Returns-if, Returns-lift, Returns-bind,
  Returns-unless_error, Returns-if_nil, Returns-on_reply, Returns-weaken,
}
use virt_advisor_operator.Kube.Faults.{Fault, failed, Returns-get_object, marshal_fault}
use virt_advisor_operator.Plan.{get_unstructured}
use virt_advisor_operator.Plan.Faults.{Returns-generate_ssa_diff}
use virt_advisor_operator.Profiles.Builder.{
  PlanItemBuilder, build, build_for, build_impact, target_of,
}

-- The impact of an item, of what the profile asked for: that one, or one that says whether the
-- object is there.
abbrev pub Rated : Impact → Impact → Type 0
Rated asked given =
    ((asked ≢ Impact.unset) × (given ≡ asked))
    ⊎ ((asked ≡ Impact.unset) × ((given ≡ Impact.low) ⊎ (given ≡ Impact.medium)))

-- An item that the builder may return for a desired object.
pub record Built (env : Env) (b : PlanItemBuilder) (item : Item) : Type 0 where
  pub object : Value
  pub asked : b.desired ≡ some object
  pub named : (item.name ≡ b.name) × ((b.name == "") ≡ false)
  pub target : item.target_ref ≡ target_of env object
  pub fresh : item.state ≡ ItemState.pending
  pub managed : item.managed_fields ≡ b.managed_fields
  pub rated : Rated b.impact_severity item.impact_severity
  pub text : String
  pub encoded : (env.marshal object ≡ ok text) × (item.desired_state ≡ some text)

-- Why the builder returns no item.
pub data Refused (env : Env) (b : PlanItemBuilder) : Type 0 where
  no_object : b.desired ≡ none → Refused env b
  no_name : (b.name == "") ≡ true → Refused env b
  fault : Fault env → Refused env b

module _ (env : Env) where
  Returns-build_impact :
      (asked : Impact) (object : Value)
      → Returns (λ e. Fault env) (Rated asked) (build_impact env asked object)
  unfolding build_impact get_unstructured
  Returns-build_impact asked object =
      Returns-if (asked == Impact.unset) _ _
        (λ u.
          let unset = (impact_eq.equal_iff asked Impact.unset).0 u in
          Returns-bind _ _ (Returns-get_object env _ _ _) (λ reply answered.
            Returns-on_reply reply _ _ _ (λ v _. Returns-return _ (inr (unset, inl refl)))
              (λ e _. Returns-return _ (inr (unset, inr refl)))
              (λ e h. Returns-raise _ (failed env _ _ _ e reply answered h))))
        (λ n. Returns-return _ (inl (ground (arith, impact_eq.equal_iff asked Impact.unset), refl)))

  module _ (b : PlanItemBuilder) where
    Returns-build_for :
        (object : Value)
        → b.desired ≡ some object
        → (b.name == "") ≡ false
        → Returns (λ e. Fault env) (Built env b) (build_for env b object)
    unfolding build_for
    Returns-build_for object asked named =
        Returns-bind _ _ (Returns-build_impact b.impact_severity object) λ impact rated.
          Returns-unless_error _ _ _ (Returns-generate_ssa_diff env object b.field_manager)
            (λ e h. Returns-raise _ h)
            λ diff _.
              Returns-unless_error _ _ _ (Returns-lift (env.marshal object))
                (λ e h. Returns-raise _ (marshal_fault object e h))
                λ text encoded. Returns-return _ (record {
                  object = object;
                  asked = asked;
                  named = (refl, named);
                  target = refl;
                  fresh = refl;
                  managed = refl;
                  rated = rated;
                  text = text;
                  encoded = (encoded, refl);
                })

    -- Build returns an item for the desired object, Pending, with the name and the managed fields
    -- asked for, the object's reference and encoding, and the impact asked for, or else Low or
    -- Medium; or it returns an error, and then the object or the name is missing, or a call failed.
    pub build-Built : Returns (λ e. Refused env b) (Built env b) (build env b)
    unfolding build
    build-Built =
        Returns-if_nil b.desired _ _ (λ h. Returns-raise _ (no_object h))
          λ object asked.
            Returns-if (b.name == "") _ _ (λ h. Returns-raise _ (no_name h))
              (λ named.
                Returns-weaken _ (Returns-build_for object asked named) (λ e h. fault h)
                  (λ item h. h))
