-- ===== src/Profiles/HigherDensity/Profile.antt =====
-- VirtHigherDensityProfile of internal/profiles/higherdensity/profile.go: the interface `Profile`.
use virt_advisor_operator.Base.{String, Bool, true, false, Option, none, List, [], ◌∷◌, ◌++◌, ◌⊕◌}
use virt_advisor_operator.Api.{Item, Impact}
use virt_advisor_operator.Kube.{Env, State, M, GroupVersionKind, ◌>>=◌, return, raise, unless_error}
use virt_advisor_operator.Kube.Effects.{Follows, follow_rules}
use virt_advisor_operator.Kube.Applied.{Reading}
use virt_advisor_operator.Discovery.{Prerequisite}
use virt_advisor_operator.Plan.Wait.{machine_config_gvk}
use virt_advisor_operator.Profiles.{
  ConfigMap, Profile, Concrete, get_bool_config, higher_density_name,
}
use virt_advisor_operator.Profiles.Eviction.{hyper_converged_gvk}
use virt_advisor_operator.Profiles.HigherDensity.Hco.{generate_hco_item, Follows-hco_item}
use virt_advisor_operator.Profiles.HigherDensity.Swap.{
  generate_swap_machine_config_item, Follows-swap_item,
}

unfoldable pub get_prerequisites : List Prerequisite
get_prerequisites =
    record {
      gvk = machine_config_gvk;
      description = "MachineConfig CRD is required for swap configuration (available on OpenShift)";
    }
    ∷ record { gvk = hyper_converged_gvk; description = "Install OpenShift Virtualization via OLM" }
    ∷ []

unfoldable pub get_managed_resource_types : List GroupVersionKind
get_managed_resource_types = machine_config_gvk ∷ hyper_converged_gvk ∷ []

unfoldable pub validate : ConfigMap → Option String
validate m = none

module _ (env : Env) where
  -- The items before that of the HyperConverged resource.
  unfoldable pub swap_items : Bool → M (List Item)
  swap_items false = return []
  swap_items true =
      unless_error (generate_swap_machine_config_item env)
        (λ e. raise ("failed to generate swap machine config item: " ⊕ e))
        (λ item. return (item ∷ []))

  unfoldable pub generate_plan_items : ConfigMap → M (List Item)
  generate_plan_items m = swap_items (get_bool_config m "enableSwap" true) >>= λ items.
      unless_error (generate_hco_item env m) (λ e. raise ("failed to generate HCO item: " ⊕ e))
        λ item. return (items ++ item ∷ [])

  -- `NewVirtHigherDensityProfile` and the methods that return constants.
  abbrev pub virt_higher_density_profile : Profile
  virt_higher_density_profile = record {
    concrete = Concrete.virt_higher_density;
    name = higher_density_name;
    prerequisites = get_prerequisites;
    managed_resource_types = get_managed_resource_types;
    validate = validate;
    generate_plan_items = generate_plan_items;
    description = "Enables higher VM density through swap and other optimizations";
    category = "density";
    impact_summary =
        "Enables swap for kubelet to allow memory overcommit and higher VM density. Requires nodes with swap partition labeled CNV_SWAP.";
    impact_level = Impact.high;
    is_advertisable = true;
  }

module _ {R : State → State → Type 0} (base : Reading R) (env : Env) where
  Follows-swap_items : (b : Bool) → Follows R (swap_items env b)
  unfolding swap_items
  Follows-swap_items false = search follow_rules
  Follows-swap_items true = search (follow_rules, Follows-swap_item) depth 8

  pub Follows-higher_density : (m : ConfigMap) → Follows R (generate_plan_items env m)
  unfolding generate_plan_items
  Follows-higher_density m = search (follow_rules, Follows-swap_items, Follows-hco_item) depth 8
