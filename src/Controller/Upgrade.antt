-- ===== src/Controller/Upgrade.antt =====
-- Changes of the operator and of the options: optionsChanged and generatePlanItemsWithNewLogic of
-- internal/controller/virtplatformconfig_controller.go, handleCompletedWithUpgradePhase of
-- internal/controller/virtplatformconfig_phases.go.
pub mod Options
use virt_advisor_operator.Base.{
  String, Bool, true, false, not, Option, none, some, List, ◌&&◌, ◌||◌, ◌==◌, ◌!=◌, if◌then◌else◌,
  Comparable, string_eq, bool_eq, nat_eq, ◌⊕◌,
}
use virt_advisor_operator.Base.Int.{ℤ, int_eq}
use virt_advisor_operator.Api.{PlanPhase, is_false, Item, ProfileOptions, LoadAwareConfig, Status}
use virt_advisor_operator.Kube.{Env, M, ◌>>=◌, ◌>>◌, return, raise, reads, lift, unless_error}
use virt_advisor_operator.Profiles.{Registry, get_profile, options_to_map}
use virt_advisor_operator.Controller.{set_status, mark, update_phase}
use virt_advisor_operator.Controller.Items.{plan_items_differ}

abbrev pub operator_version : String
operator_version = "v0.1.31"

-- `PtrEqual` of internal/util/pointers.go.
unfoldable pub ptr_equal {ℓ} : {A : Type ℓ} ⦃e : Comparable A⦄ → Option A → Option A → Bool
ptr_equal none none = true
ptr_equal (some a) (some b) = a == b
ptr_equal _ _ = false

unfoldable pub load_aware_changed : Option LoadAwareConfig → Option LoadAwareConfig → Bool
unfolding ptr_equal
load_aware_changed none none = false
load_aware_changed (some c) (some a) =
    not (ptr_equal c.descheduling_interval_seconds a.descheduling_interval_seconds)
    || not (ptr_equal c.enable_psi_metrics a.enable_psi_metrics)
    || not (ptr_equal c.dev_deviation_thresholds a.dev_deviation_thresholds)
load_aware_changed _ _ = true

unfoldable pub options_changed : Option ProfileOptions → Option ProfileOptions → Bool
unfolding load_aware_changed
options_changed none none = false
options_changed (some c) (some a) = load_aware_changed c.load_aware a.load_aware
options_changed _ _ = true

-- The operator is not the one that made the plan.
abbrev pub is_upgraded : Status → Bool
is_upgraded s = s.operator_version != "" && s.operator_version != operator_version

module _ (env : Env) (registry : Registry) where
  unfoldable pub generate_plan_items_with_new_logic : M (List Item)
  generate_plan_items_with_new_logic = do
    spec ← reads (λ c. c.spec)
    unless_error (lift (get_profile env registry spec.profile))
        (λ e. raise ("profile not found: " ⊕ e))
        λ profile.
          unless_error (profile.generate_plan_items (options_to_map env spec.profile spec.options))
            (λ e. raise ("failed to generate plan items: " ⊕ e)) return

  unfoldable pub aligned : M (Unit {0})
  aligned = do
    mark env "UpgradeAvailable" is_false "ManuallyAligned"
        "Cluster manually aligned with new operator logic - upgrade no longer needed"
    set_status (λ s. record s { operator_version = operator_version })
    update_phase env PlanPhase.completed
        "Upgrade auto-resolved - cluster aligned with new operator logic"

  unfoldable pub handle_completed_with_upgrade_phase : M (Unit {0})
  handle_completed_with_upgrade_phase = do
    plan ← reads (λ c. c)
    if plan.status.observed_generation != plan.generation
        then update_phase env PlanPhase.pending "User regenerating plan to adopt operator upgrade"
        else if is_upgraded plan.status
        then unless_error generate_plan_items_with_new_logic (λ _. return tt)
            (λ items.
              if not (plan_items_differ env items plan.status.items) then aligned else return tt)
        else return tt
