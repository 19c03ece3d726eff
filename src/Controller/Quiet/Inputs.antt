-- ===== src/Controller/Quiet/Inputs.antt =====
-- internal/controller/virtplatformconfig_hco.go and the lookup of profiles: what they keep.
use virt_advisor_operator.Base.{String, [], ◌∷◌, All, Bool-cases, inl, inr, ◌==◌, string_eq}
use virt_advisor_operator.Kube.{Env, State, M, Result, ok, err, lift, unless_error}
use virt_advisor_operator.Kube.Effects.{Follows, Follows-lift_ok, Follows-lift_err}
use virt_advisor_operator.Kube.Applied.{Reads}
use virt_advisor_operator.Controller.Steps.{Quiet}
use virt_advisor_operator.Profiles.{Registry, Profile, ConfigMap, lookup, get_profile}
use virt_advisor_operator.Controller.Hco.{
  hco_input_dependencies_changed, hco_higher_density_config_changed, hco_changed,
}
use virt_advisor_operator.Controller.Quiet.{effect_rules}

-- GeneratePlanItems builds its items from dry runs only: the rule of the Profile interface that
-- items come from PlanItemBuilder.
abbrev pub QuietProfile : Profile → Type 0
QuietProfile p = (m : ConfigMap) → Follows Reads (p.generate_plan_items m)

abbrev pub QuietRegistry : Registry → Type 0
QuietRegistry = All (λ e. QuietProfile e.1)

abbrev pub OnProfile : Result Profile → Type 0
OnProfile (ok p) = QuietProfile p
OnProfile (err e) = Unit

pub get_profile-Quiet :
    (env : Env) (r : Registry) (name : String)
    → QuietRegistry r
    → OnProfile (get_profile env r name)
unfolding get_profile lookup
get_profile-Quiet env [] name q = tt
get_profile-Quiet env ((k, p) ∷ r) name q = elim (Bool-cases (k == name)) [
  | inl e ↦ rw e q.0
  | inr e ↦ rw e (get_profile-Quiet env r name q.1)
]

pub Follows-generate_plan_items :
    {R : State → State → Type 0} (quiet : Quiet R) (p : Profile)
    → QuietProfile p
    → (m : ConfigMap) → Follows R (p.generate_plan_items m)
Follows-generate_plan_items quiet p q m = record { at = λ s. quiet.reading s _ ((q m).at s) }

-- The profile that a handler looks up is quiet.
pub Follows-with_profile {ℓ} :
    {A : Type ℓ} {R : State → State → Type 0} (r : Result Profile) (h : String → M A)
    (k : Profile → M A)
    → OnProfile r
    → ((e : String) → Follows R (h e))
    → ((p : Profile) → QuietProfile p → Follows R (k p))
    → Follows R (unless_error (lift r) h k)
Follows-with_profile (ok p) h k q fh fk = Follows-lift_ok p h k (fk p q)
Follows-with_profile (err e) h k q fh fk = Follows-lift_err e h k (fh e)

module _ {R : State → State → Type 0} (quiet : Quiet R) (env : Env) where
  module _ (registry : Registry) where
    pub Follows-input_dependencies : Follows R (hco_input_dependencies_changed env registry)
    unfolding hco_input_dependencies_changed
    Follows-input_dependencies = search effect_rules depth 24

    pub Follows-higher_density : Follows R (hco_higher_density_config_changed env registry)
    unfolding hco_higher_density_config_changed
    Follows-higher_density = search effect_rules depth 24

    pub Follows-hco_changed : Follows R (hco_changed env registry)
    unfolding hco_changed
    Follows-hco_changed =
        search (effect_rules, Follows-input_dependencies, Follows-higher_density) depth 8
