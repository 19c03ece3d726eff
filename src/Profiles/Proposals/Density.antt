-- ===== src/Profiles/Proposals/Density.antt =====
-- The items of the profile virt-higher-density and of the example.
use virt_advisor_operator.Base.{String, Bool, true, false, List, [], ◌∷◌, ◌++◌, refl}
use virt_advisor_operator.Kube.{Env}
use virt_advisor_operator.Kube.Faults.{Fault}
use virt_advisor_operator.Kube.Returns.{
  Returns, Returns-return, Returns-raise, Returns-bind, Returns-unless_error,
}
use virt_advisor_operator.Profiles.{ConfigMap, get_bool_config}
use virt_advisor_operator.Profiles.HigherDensity.Hco.{generate_hco_item, hco_builder}
use virt_advisor_operator.Profiles.HigherDensity.Profile.{generate_plan_items, swap_items}
use virt_advisor_operator.Profiles.HigherDensity.Swap.{
  generate_swap_machine_config_item, swap_builder,
}
use virt_advisor_operator.Profiles.Proposals.{
  Items, Proposed, append-Items, Returns-build, Returns-set_spec,
}

-- The names of the items, of whether swap is asked for.
abbrev swap_names : Bool → List String
swap_names true = "enable-kubelet-swap" ∷ []
swap_names false = []

abbrev pub higher_density_names : ConfigMap → List String
higher_density_names m =
    swap_names (get_bool_config m "enableSwap" true) ++ "configure-higher-density" ∷ []

module _ (env : Env) where
  Returns-swap_item :
      Returns
        (λ e. Fault env)
        (Proposed "enable-kubelet-swap")
        (generate_swap_machine_config_item env)
  unfolding generate_swap_machine_config_item swap_builder
  Returns-swap_item =
      Returns-bind _ _ (Returns-set_spec env _ _) λ desired _. Returns-build env _ desired refl refl

  Returns-swap_items :
      (b : Bool) → Returns (λ e. Fault env) (Items (swap_names b)) (swap_items env b)
  unfolding swap_items
  Returns-swap_items false = Returns-return _ tt
  Returns-swap_items true =
      Returns-unless_error _ _ _ Returns-swap_item (λ e h. Returns-raise _ h)
        (λ item h. Returns-return _ (h, tt))

  Returns-hco_item :
      (m : ConfigMap)
      → Returns (λ e. Fault env) (Proposed "configure-higher-density") (generate_hco_item env m)
  unfolding generate_hco_item hco_builder
  Returns-hco_item m =
      Returns-bind _ _ (Returns-set_spec env _ _) λ desired _. Returns-build env _ desired refl refl

  pub Returns-higher_density :
      (m : ConfigMap)
      → Returns (λ e. Fault env) (Items (higher_density_names m)) (generate_plan_items env m)
  unfolding generate_plan_items
  Returns-higher_density m = Returns-bind _ _ (Returns-swap_items _) λ items h.
      Returns-unless_error _ _ _ (Returns-hco_item m) (λ e h. Returns-raise _ h)
        (λ item p. Returns-return _ (append-Items _ _ items item h p))
