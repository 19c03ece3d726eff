-- ===== src/Profiles/Proposals/LoadAware.antt =====
-- The items of the load-aware profile.
use virt_advisor_operator.Base.{
  String, Bool, true, false, List, [], ◌∷◌, ◌++◌, ◌≡◌, ◌⊎◌, refl, inl, inr, if◌then◌else◌, some,
  none, Option, ◌∙◌, arith, string_eq,
}
use virt_advisor_operator.Base.Int.{ℤ}
use virt_advisor_operator.Kube.{Env}
use virt_advisor_operator.Kube.Faults.{Fault, failed, Returns-get_object}
use virt_advisor_operator.Kube.Returns.{
  Returns, Returns-return, Returns-raise, Returns-if, Returns-attempt, Returns-bind,
  Returns-unless_error, Returns-on_reply, Returns-weaken,
}
use virt_advisor_operator.Plan.{get_unstructured}
use virt_advisor_operator.Plan.Crds.{crd_exists, check_required_crds}
use virt_advisor_operator.Profiles.{ConfigMap}
use virt_advisor_operator.Profiles.Eviction.{
  get_eviction_limits, scaled_limits, get_hco_migration_limits,
}
use virt_advisor_operator.Profiles.LoadAware.Items.{
  generate_descheduler_item, generate_machine_config_item, customized, psi_builder,
  descheduler_builder, is_customized,
}
use virt_advisor_operator.Profiles.LoadAware.Profile.{
  generate_plan_items, generate_items, psi_items, enable_psi, after_crds,
}
use virt_advisor_operator.Profiles.LoadAware.Schema.{crd_supports_eviction_limit_node}
use virt_advisor_operator.Profiles.LoadAware.Selection.{
  select_descheduler_profile, build_profiles_list,
}
use virt_advisor_operator.Profiles.Proposals.{
  Hindered, Missing, Items, Proposed, append-Items, Returns-build, Returns-set_spec,
}

-- The names of the items, of whether PSI is asked for.
abbrev psi_names : Bool → List String
psi_names true = "enable-psi-metrics" ∷ []
psi_names false = []

abbrev pub load_aware_names : ConfigMap → List String
load_aware_names m = psi_names (enable_psi m) ++ "enable-load-aware-descheduling" ∷ []

module _ (env : Env) where
  module _ {F : String → Type 0} where
    Returns-hco_limits : Returns F (λ l. Unit {0}) (get_hco_migration_limits env)
    unfolding get_hco_migration_limits
    Returns-hco_limits = Returns-bind _ _ (Returns-get_object env _ _ _) λ reply _.
        Returns-on_reply reply _ _ _ (λ v _. Returns-return _ tt) (λ e h. Returns-return _ tt)
          (λ e h. Returns-return _ tt)

    Returns-scaled : (a b : Option ℤ) → Returns F (λ l. Unit {0}) (scaled_limits env a b)
    unfolding scaled_limits
    Returns-scaled (some a) (some b) = Returns-return _ tt
    Returns-scaled none none = Returns-bind _ _ Returns-hco_limits (λ h _. Returns-return _ tt)
    Returns-scaled none (some b) = Returns-bind _ _ Returns-hco_limits (λ h _. Returns-return _ tt)
    Returns-scaled (some a) none = Returns-bind _ _ Returns-hco_limits (λ h _. Returns-return _ tt)

    Returns-limits : (m : ConfigMap) → Returns F (λ l. Unit {0}) (get_eviction_limits env m)
    unfolding get_eviction_limits
    Returns-limits m = Returns-scaled _ _

    Returns-select : Returns F (λ p. Unit {0}) (select_descheduler_profile env)
    unfolding select_descheduler_profile get_unstructured
    Returns-select = Returns-bind _ _ (Returns-get_object env _ _ _) λ reply _.
        Returns-on_reply reply _ _ _ (λ v _. Returns-return _ tt) (λ e h. Returns-return _ tt)
          (λ e h. Returns-return _ tt)

    Returns-list : (p : String) → Returns F (λ l. Unit {0}) (build_profiles_list env p)
    unfolding build_profiles_list get_unstructured
    Returns-list p = Returns-bind _ _ (Returns-get_object env _ _ _) λ reply _.
        Returns-on_reply reply _ _ _ (λ v _. Returns-return _ tt) (λ e h. Returns-return _ tt)
          (λ e h. Returns-return _ tt)

  Returns-supports :
      Returns (λ e. Hindered env) (λ b. Unit {0}) (crd_supports_eviction_limit_node env)
  unfolding crd_supports_eviction_limit_node
  Returns-supports = Returns-bind _ _ (Returns-get_object env _ _ _) λ reply answered.
      Returns-on_reply reply _ _ _ (λ v _. Returns-return _ tt)
        (λ e h. Returns-raise _ (inr (answered.0, (_, (e, answered.1 ∙ h)))))
        (λ e h. Returns-raise _ (inl (failed env _ _ _ e reply answered h)))

  Returns-customized :
      (profile : String) (m : ConfigMap)
      → Returns (λ e. Hindered env) (λ fs. Unit {0}) (customized env profile m)
  unfolding customized
  Returns-customized profile m =
      Returns-if (is_customized profile) _ _
        (λ _.
          Returns-unless_error _ _ _ (Returns-limits {F = λ e. Hindered env} m)
            (λ e h. Returns-raise _ h)
            (λ l _.
              Returns-unless_error _ _ _ Returns-supports (λ e h. Returns-raise _ h)
                (λ b _. Returns-return _ tt)))
        (λ _. Returns-return _ tt)

  Returns-descheduler_item :
      (interval : ℤ) (m : ConfigMap)
      → Returns
          (λ e. Hindered env)
          (Proposed "enable-load-aware-descheduling")
          (generate_descheduler_item env interval m)
  unfolding generate_descheduler_item descheduler_builder
  Returns-descheduler_item interval m = Returns-bind _ _ Returns-select λ profile _.
      Returns-bind _ _ (Returns-list profile) λ profiles _.
        Returns-bind _ _ (Returns-customized profile m) λ rest _.
          Returns-bind _ _ (Returns-weaken _ (Returns-set_spec env _ _) (λ e h. inl h) (λ v h. h))
            λ desired _.
              Returns-weaken _ (Returns-build env _ desired refl refl) (λ e h. inl h) (λ v h. h)

  Returns-machine_config_item :
      Returns (λ e. Fault env) (Proposed "enable-psi-metrics") (generate_machine_config_item env)
  unfolding generate_machine_config_item psi_builder
  Returns-machine_config_item = Returns-bind _ _ (Returns-set_spec env _ _) λ desired _.
      Returns-bind _ _ (Returns-attempt (λ e. Fault env) _)
        λ present _. Returns-build env _ desired refl refl

  Returns-psi_items :
      (b : Bool) → Returns (λ e. Hindered env) (Items (psi_names b)) (psi_items env b)
  unfolding psi_items
  Returns-psi_items false = Returns-return _ tt
  Returns-psi_items true =
      Returns-unless_error _ _ _ Returns-machine_config_item (λ e h. Returns-raise _ (inl h))
        (λ item h. Returns-return _ (h, tt))

  Returns-generate_items :
      (m : ConfigMap)
      → Returns (λ e. Hindered env) (Items (load_aware_names m)) (generate_items env m)
  unfolding generate_items
  Returns-generate_items m = Returns-bind _ _ (Returns-psi_items (enable_psi m)) λ items h.
      Returns-unless_error _ _ _ (Returns-descheduler_item _ m) (λ e h. Returns-raise _ h)
        (λ item p. Returns-return _ (append-Items _ _ items item h p))

  Returns-crd_exists :
      (name : String)
      → Returns (λ e. Fault env) (λ b. (b ≡ true) ⊎ Missing env) (crd_exists env name)
  unfolding crd_exists
  Returns-crd_exists name = Returns-bind _ _ (Returns-get_object env _ _ _) λ reply answered.
      Returns-on_reply reply _ _ _ (λ v _. Returns-return _ (inl refl))
        (λ e h. Returns-return _ (inr (answered.0, (_, (e, answered.1 ∙ h)))))
        (λ e h. Returns-raise _ (failed env _ _ _ e reply answered h))

  -- A name in the list is that of a CRD that is missing.
  abbrev Lacking : List String → Type 0
  Lacking names = (names ≡ []) ⊎ Missing env

  lacking :
      (exists : Bool) (name : String) (missing : List String)
      → (exists ≡ true) ⊎ Missing env
      → Lacking missing
      → Lacking (if exists then missing else name ∷ missing)
  lacking true name missing h l = l
  lacking false name missing (inr a) l = inr a
  lacking false name missing (inl e) l = ground arith

  Returns-check :
      (names : List String) → Returns (λ e. Fault env) Lacking (check_required_crds env names)
  unfolding check_required_crds
  Returns-check [] = Returns-return _ (inl refl)
  Returns-check (name ∷ names) = Returns-bind _ _ (Returns-crd_exists name) λ exists h.
      Returns-bind _ _ (Returns-check names)
        λ missing l. Returns-return _ (lacking exists name missing h l)

  Returns-after_crds :
      (m : ConfigMap) (names : List String)
      → Lacking names
      → Returns (λ e. Hindered env) (Items (load_aware_names m)) (after_crds env m names)
  unfolding after_crds
  Returns-after_crds m [] h = Returns-generate_items m
  Returns-after_crds m (name ∷ names) (inr a) = Returns-raise _ (inr a)
  Returns-after_crds m (name ∷ names) (inl e) = ground arith

  pub Returns-load_aware :
      (m : ConfigMap)
      → Returns (λ e. Hindered env) (Items (load_aware_names m)) (generate_plan_items env m)
  unfolding generate_plan_items
  Returns-load_aware m =
      Returns-unless_error _ _ _ (Returns-check _) (λ e h. Returns-raise _ (inl h))
        (λ names l. Returns-after_crds m names l)
