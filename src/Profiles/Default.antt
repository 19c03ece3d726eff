-- ===== src/Profiles/Default.antt =====
-- DefaultRegistry of internal/profiles/profiles.go: what `init` registers.
use virt_advisor_operator.Base.{List, [], ◌∷◌, ◌≡◌, refl}
use virt_advisor_operator.Kube.{Env, Result, ok, err}
use virt_advisor_operator.Profiles.{Registry, Profile, register, registered, lookup}
use virt_advisor_operator.Profiles.Example.{example_profile}
use virt_advisor_operator.Profiles.HigherDensity.Profile.{virt_higher_density_profile}
use virt_advisor_operator.Profiles.LoadAware.Profile.{load_aware_profile}

module _ (env : Env) where
  -- Registers profiles in order; an error of Register is a panic.
  unfoldable pub register_all : List Profile → Registry → Result Registry
  register_all [] r = ok r
  register_all (p ∷ ps) r = elim (register env r p) [ ok s ↦ register_all ps s | err e ↦ err e ]

  abbrev pub shipped_profiles : List Profile
  shipped_profiles =
      load_aware_profile env ∷ virt_higher_density_profile env ∷ example_profile env ∷ []

  -- `init`, from `NewRegistry()`.
  unfoldable pub init_registry : Result Registry
  init_registry = register_all shipped_profiles []

  abbrev pub default_registry : Registry
  default_registry =
      ("example-profile", example_profile env)
      ∷ ("virt-higher-density", virt_higher_density_profile env)
      ∷ ("load-aware-rebalancing", load_aware_profile env)
      ∷ []

  pub init_registry-default : init_registry ≡ ok default_registry
  unfolding init_registry register_all register registered lookup
  init_registry-default = refl
