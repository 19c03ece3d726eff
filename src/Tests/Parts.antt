-- ===== src/Tests/Parts.antt =====
-- The theorems on the components at concrete inputs.
use virt_advisor_operator.Base.{
  String, true, false, Option, none, some, [], ◌∷◌, ◌≡◌, ◌↔◌, refl, arith, All, any, not, ◌||◌,
  ◌==◌, string_eq, length,
}
use virt_advisor_operator.Base.Int.{pos, ◌≤ℤ◌}
use virt_advisor_operator.Api.{
  PlanPhase, impact_eq, Condition, is_true, is_false, LoadAwareConfig, ProfileOptions,
}
use virt_advisor_operator.Api.Json.{obj, end}
use virt_advisor_operator.Conditions.{phase_conditions}
use virt_advisor_operator.Conditions.Lookup.{status_of}
use virt_advisor_operator.Conditions.Phases.{
  others, besides, left_alone, phase_conditions-exclusive, phase_conditions-left_alone,
}
use virt_advisor_operator.Plan.Wait.{pool_health, count_of, shows}
use virt_advisor_operator.Plan.Wait.Pool.{pool_health_iff}
use virt_advisor_operator.Profiles.Eviction.{compute_scaled_eviction_limit}
use virt_advisor_operator.Profiles.Eviction.Scale.{compute_scaled_eviction_limit-monotonic}
use virt_advisor_operator.Profiles.KernelArgs.{check_kernel_arg, add_kernel_arg}
use virt_advisor_operator.Profiles.KernelArgs.Laws.{check-add}
use virt_advisor_operator.Controller.Items.{
  plan_items_differ, applied_item, differs_from, item_config_differs, desired_state_differs,
  same_texts, raw_text,
}
use virt_advisor_operator.Controller.Items.Comparison.{Applied, plan_items_differ-same}
use virt_advisor_operator.Controller.Upgrade.{options_changed}
use virt_advisor_operator.Controller.Upgrade.Options.{seen, options_changed_iff}
use virt_advisor_operator.Tests.Samples.{cluster, item, condition_object}

phase_conditions-exclusive_example :
    let after = phase_conditions 7 PlanPhase.completed "" [] in
    (status_of "Completed" after ≡ some is_true)
    × All (λ k. status_of k after ≡ some is_false) (others PlanPhase.completed)
    × All (λ k. status_of k after ≡ some is_true) (besides PlanPhase.completed)
phase_conditions-exclusive_example = phase_conditions-exclusive 7 PlanPhase.completed "" []

phase_conditions-left_alone_example :
    All
      (λ k. status_of k (phase_conditions 7 PlanPhase.drafting "" []) ≡ status_of k [])
      (left_alone PlanPhase.drafting)
phase_conditions-left_alone_example = phase_conditions-left_alone 7 PlanPhase.drafting "" []

pool_health_iff_example :
    let count = count_of cluster (obj end) in
    let cs = condition_object "Updated" ∷ [] in
    ((pool_health cluster "worker" (obj end)).1 ≡ true) ↔ (
      (count "degradedMachineCount" ≤ℤ pos 0)
      × (any (shows cluster "Updated") cs ≡ true)
      × (any (shows cluster "Updating") cs ≡ false)
      × (count "updatedMachineCount" ≡ count "machineCount")
      × (count "readyMachineCount" ≡ count "machineCount")
      × (pos 1 ≤ℤ count "machineCount"))
pool_health_iff_example =
    pool_health_iff cluster "worker" (obj end) (condition_object "Updated" ∷ []) refl

-- Two objects that differ outside of the managed fields.
compute_scaled_eviction_limit-monotonic_example :
    (compute_scaled_eviction_limit (pos 20) ≡ pos 18)
    × (compute_scaled_eviction_limit (pos 5) ≤ℤ compute_scaled_eviction_limit (pos 20))
    × (compute_scaled_eviction_limit (pos 20) ≤ℤ pos 20)
compute_scaled_eviction_limit-monotonic_example =
    compute_scaled_eviction_limit-monotonic (pos 5) (pos 20) (omega arith) (omega arith)

check-add_example : check_kernel_arg (add_kernel_arg ("psi=1" ∷ "psi=0" ∷ []) "psi=1") "psi=1" ≡ (
    not (any {A = String} (λ karg. karg == "psi=1") ("psi=1" ∷ "psi=0" ∷ []))
    || check_kernel_arg ("psi=1" ∷ "psi=0" ∷ []) "psi=1")
check-add_example = check-add ("psi=1" ∷ "psi=0" ∷ []) "psi=1"

plan_items_differ-same_example :
    (length (item ∷ []) ≡ length (item ∷ [])) × All (Applied cluster (item ∷ [])) (item ∷ [])
unfolding plan_items_differ differs_from item_config_differs desired_state_differs same_texts
    applied_item raw_text
plan_items_differ-same_example = plan_items_differ-same cluster (item ∷ []) (item ∷ []) refl

abbrev drifted_condition : Condition
drifted_condition = record {
  type = "Drifted";
  status = is_true;
  reason = "DriftDetected";
  message = "";
  last_transition_time = 1;
}

abbrev limited : Option LoadAwareConfig
limited = some (record {
  descheduling_interval_seconds = some (pos 60);
  mode = none;
  enable_psi_metrics = none;
  dev_deviation_thresholds = none;
  eviction_limit_total = some (pos 9);
  eviction_limit_node = none;
})

abbrev options : Option LoadAwareConfig → ProfileOptions
options c = record { load_aware = c; virt_higher_density = none }

options_changed_iff_example :
    (options_changed (some (options limited)) (some (options none)) ≡ false)
    ↔ (seen limited ≡ seen none)
options_changed_iff_example = options_changed_iff (options limited) (options none)
