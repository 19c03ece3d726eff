-- ===== src/Controller/Watches/Dependents.antt =====
-- A change of the HyperConverged resource on which a reconciliation would act reaches it.
use virt_advisor_operator.Base.{
  String, Bool, true, false, not, List, ◌≡◌, refl, ap, subst, ◌∙◌, arith, Memᴰ, ◌==◌, ◌!=◌, ◌&&◌,
  ◌||◌, ◌⊎◌, inl, inr, Option, none, some, and_iff, string_eq, if◌then◌else◌,
}
use virt_advisor_operator.Api.{
  Config, Spec, PlanPhase, ProfileOptions, LoadAwareConfig, VirtHigherDensityConfig,
}
use virt_advisor_operator.Kube.{Env, State, Outcome, done, fail, ok, ◌>>=◌, reads, return, final}
use virt_advisor_operator.Controller.Steps.{Quiet, Quiet-writes}
use virt_advisor_operator.Kube.Returns.{
  Holds, Returns-return, Returns-if, Returns-any, Returns-weaken,
}
use virt_advisor_operator.Profiles.{Registry, load_aware_name, higher_density_name}
use virt_advisor_operator.Controller.Hco.{
  has_explicit_limits, has_explicit_config, explicit_limits_in, explicit_config_in,
  hco_input_dependencies_changed, hco_higher_density_config_changed, hco_changed,
}
use virt_advisor_operator.Controller.Quiet.Inputs.{Follows-input_dependencies}
use virt_advisor_operator.Controller.Watches.Hco.{
  gives_limits, gives_config, limits_given, config_given, cares_about_hco, depends_on_hco,
  waits_for_hco, enqueue_hco_dependent_configs,
}
use virt_advisor_operator.Controller.Watches.{listed_or_none}
use virt_advisor_operator.Controller.Watches.Requests.{requests_for_complete}

-- A change is reported for a config only if it depends on the HyperConverged resource.
abbrev Founded : Config → Bool × String → Type 0
Founded c r = r.0 ≡ true → depends_on_hco c ≡ true

unfounded : (c : Config) → Founded c (false, "")
unfounded c h = ground arith

-- The two checks for explicit limits agree, and those for an explicit configuration.
same_limits : (o : Option ProfileOptions) → gives_limits o ≡ has_explicit_limits o
unfolding gives_limits has_explicit_limits limits_given explicit_limits_in
same_limits none = refl
same_limits (some o) = of_part o.load_aware
  where
    of_part : (c : Option LoadAwareConfig) → limits_given c ≡ explicit_limits_in c
    of_part none = refl
    of_part (some c) = refl

same_config : (o : Option ProfileOptions) → gives_config o ≡ has_explicit_config o
unfolding gives_config has_explicit_config config_given explicit_config_in
same_config none = refl
same_config (some o) = of_part o.virt_higher_density
  where
    of_part : (c : Option VirtHigherDensityConfig) → config_given c ≡ explicit_config_in c
    of_part none = refl
    of_part (some c) = refl

by_limits :
    (c : Config)
    → (c.spec.profile != load_aware_name) ≡ false
    → has_explicit_limits c.spec.options ≡ false
    → depends_on_hco c ≡ true
unfolding depends_on_hco
by_limits c h k = ground (arith, same_limits c.spec.options)

by_config :
    (c : Config)
    → (c.spec.profile != higher_density_name) ≡ false
    → has_explicit_config c.spec.options ≡ false
    → depends_on_hco c ≡ true
unfolding depends_on_hco
by_config c h k = ground (arith, same_config c.spec.options)

-- The phases whose handlers check the inputs.
abbrev pub Checks : PlanPhase → Type 0
Checks p =
    (p ≡ PlanPhase.completed)
    ⊎ (p ≡ PlanPhase.completed_with_errors)
    ⊎ (p ≡ PlanPhase.review_required)

cared : (p : PlanPhase) → Checks p → cares_about_hco p ≡ true
unfolding cares_about_hco
cared p (inl e) = ap cares_about_hco e
cared p (inr (inl e)) = ap cares_about_hco e
cared p (inr (inr e)) = ap cares_about_hco e

-- The spec is kept, as every check keeps it.
SpecKept-Quiet : Quiet (λ s t. t.plan.spec ≡ s.plan.spec)
SpecKept-Quiet =
    Quiet-writes
      (record {
        order = record { same = λ s. refl; chain = λ s t u p q. q ∙ p };
        reading = λ s t r. ap (λ c. c.spec) r.0;
      })
      (λ s status e. refl)

same_dependence : (c d : Config) → d.spec ≡ c.spec → depends_on_hco d ≡ depends_on_hco c
unfolding depends_on_hco
same_dependence c d h =
    ap
      (λ (spec : Spec).
        (spec.profile == load_aware_name && not (gives_limits spec.options))
        || (spec.profile == higher_density_name && not (gives_config spec.options)))
      h

module _ (env : Env) (registry : Registry) where
  inputs-Founded :
      (s : State)
      → Holds (λ e. Unit {0}) (Founded s.plan) (hco_input_dependencies_changed env registry s)
  unfolding hco_input_dependencies_changed ◌>>=◌ reads
  inputs-Founded s =
      (Returns-if {F = λ e. Unit {0}} {P = Founded s.plan} (s.plan.spec.profile != load_aware_name)
          _ _ (λ e. Returns-return _ (unfounded s.plan))
          (λ e.
            Returns-if (has_explicit_limits s.plan.spec.options) _ _
              (λ f. Returns-return _ (unfounded s.plan))
              (λ f.
                Returns-weaken _ (Returns-any _) (λ e h. h) (λ r u h. by_limits s.plan e f)))).at
        s

  density-Founded :
      (s : State)
      → Holds (λ e. Unit {0}) (Founded s.plan) (hco_higher_density_config_changed env registry s)
  unfolding hco_higher_density_config_changed ◌>>=◌ reads
  density-Founded s =
      (Returns-if {F = λ e. Unit {0}} {P = Founded s.plan}
          (s.plan.spec.profile != higher_density_name) _ _
          (λ e. Returns-return _ (unfounded s.plan))
          (λ e.
            Returns-if (has_explicit_config s.plan.spec.options) _ _
              (λ f. Returns-return _ (unfounded s.plan))
              (λ f.
                Returns-weaken _ (Returns-any _) (λ e h. h) (λ r u h. by_config s.plan e f)))).at
        s

  second :
      (s t : State) (r : Bool × String)
      → t.plan.spec ≡ s.plan.spec
      → Founded s.plan r
      → Holds
          (λ e. Unit {0})
          (Founded s.plan)
          ((if r.0 then return r else hco_higher_density_config_changed env registry) t)
  unfolding return
  second s t (true, reason) k f = f
  second s t (false, reason) k f =
      subst
        (λ (b : Bool).
          Holds (λ e. Unit {0}) (λ (r : Bool × String). r.0 ≡ true → b ≡ true)
            (hco_higher_density_config_changed env registry t))
        (same_dependence s.plan t.plan k) (density-Founded t)

  both :
      (s : State) (o : Outcome (Bool × String))
      → (final o).plan.spec ≡ s.plan.spec
      → Holds (λ e. Unit {0}) (Founded s.plan) o
      → Holds
          (λ e. Unit {0})
          (Founded s.plan)
          (elim o [
            | done r t ↦
                (if r.0 then return r else hco_higher_density_config_changed env registry) t
            | fail e t ↦ fail e t
          ])
  unfolding final
  both s (done r t) k f = second s t r k f
  both s (fail e t) k f = tt

  hco_changed-Founded :
      (s : State) → Holds (λ e. Unit {0}) (Founded s.plan) (hco_changed env registry s)
  unfolding hco_changed ◌>>=◌
  hco_changed-Founded s =
      both s (hco_input_dependencies_changed env registry s)
        ((Follows-input_dependencies SpecKept-Quiet env registry).at s) (inputs-Founded s)

  -- If a check of a reconciliation finds that the HyperConverged resource no longer has the values
  -- that a VirtPlatformConfig was made for, and the phase is Completed, CompletedWithErrors or
  -- ReviewRequired, whose handlers make the check, then an event of the HyperConverged resource
  -- enqueues the VirtPlatformConfig, wherever it stands in the list.
  pub hco_changed-enqueued :
      (s t : State) (reason : String) (configs : List Config)
      → hco_changed env registry s ≡ done (true, reason) t
      → Checks s.plan.status.phase
      → Memᴰ s.plan configs
      → Memᴰ s.plan.name (enqueue_hco_dependent_configs (ok configs))
  unfolding enqueue_hco_dependent_configs listed_or_none waits_for_hco
  hco_changed-enqueued s t reason configs h phase m =
      requests_for_complete waits_for_hco configs s.plan m (
        (and_iff _ _).1 (
          cared s.plan.status.phase phase,
          subst (Holds (λ e. Unit {0}) (Founded s.plan)) h (hco_changed-Founded s) refl,
        ))
