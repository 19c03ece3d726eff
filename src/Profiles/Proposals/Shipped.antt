-- ===== src/Profiles/Proposals/Shipped.antt =====
-- The items of each profile that the operator ships.
use virt_advisor_operator.Base.{
  String, List, [], ◌∷◌, refl, inl, arith, All, if◌then◌else◌, ◌==◌, string_eq,
}
use virt_advisor_operator.Kube.{Env}
use virt_advisor_operator.Kube.Faults.{Fault, marshal_fault}
use virt_advisor_operator.Kube.Returns.{
  Returns, Returns-return, Returns-raise, Returns-lift, Returns-unless_error, Returns-weaken,
}
use virt_advisor_operator.Profiles.{ConfigMap, load_aware_name, higher_density_name}
use virt_advisor_operator.Profiles.Default.{default_registry}
use virt_advisor_operator.Profiles.Example.{generate_plan_items, desired_state}
use virt_advisor_operator.Profiles.Proposals.{Hindered, Items}
use virt_advisor_operator.Profiles.Proposals.Density.{higher_density_names, Returns-higher_density}
use virt_advisor_operator.Profiles.Proposals.LoadAware.{load_aware_names, Returns-load_aware}

Returns-example :
    (env : Env) (m : ConfigMap)
    → Returns
        (λ e. Fault env)
        (Items ("configure-example-component" ∷ []))
        (generate_plan_items env m)
unfolding generate_plan_items
Returns-example env m =
    Returns-unless_error _ _ _ (Returns-lift (env.marshal desired_state))
      (λ e h. Returns-raise _ (marshal_fault desired_state e h))
      λ raw h.
        Returns-return _
          (record { named = refl; waiting = refl; rated = ground arith; object = (raw, refl) }, tt)

-- The names that a shipped profile gives to its items, of the options as a map.
abbrev pub names_of : String → ConfigMap → List String
names_of profile m =
    if profile == load_aware_name
    then load_aware_names m
    else if profile == higher_density_name
    then higher_density_names m
    else "configure-example-component" ∷ []

-- For any options, each profile that the operator ships proposes its items under fixed names, in
-- order and all Pending, each with an impact and an object to apply: first the one that enables PSI
-- or swap unless an option turns it off, last the one that always comes. Where it returns an error
-- instead, a call of the API server or of a library failed or a CRD is not installed.
pub default_registry-Items :
    (env : Env)
    → All
        (λ e.
          (m : ConfigMap)
          → Returns (λ error. Hindered env) (Items (names_of e.0 m)) (e.1.generate_plan_items m))
        (default_registry env)
default_registry-Items env = (
  (λ m. Returns-weaken _ (Returns-example env m) (λ e h. inl h) (λ items h. h)),
  (
    (λ m. Returns-weaken _ (Returns-higher_density env m) (λ e h. inl h) (λ items h. h)),
    ((λ m. Returns-load_aware env m), tt),
  ),
)
