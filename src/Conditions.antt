-- ===== src/Conditions.antt =====
-- The conditions of a VirtPlatformConfig: setCondition, the three clear helpers, setPhaseConditions
-- and the part of updatePhase that concerns conditions, of
-- internal/controller/virtplatformconfig_controller.go. A condition list goes in and comes out;
-- `now` is the value of metav1.Now(), which no call of the API server separates.
pub mod Texts
pub mod Lookup
pub mod Phases
pub mod Distinct
use virt_advisor_operator.Base.{
  ℕ, String, List, [], ◌∷◌, ◌||◌, ◌==◌, ◌!=◌, if◌then◌else◌, string_eq,
}
use virt_advisor_operator.Api.{
  PlanPhase, phase_text, ConditionStatus, is_true, is_false, status_eq, Condition,
}
use Texts

-- The loop of setCondition: the first condition of the type is replaced if its status or message
-- differs, and where there is none the new one is appended.
unfoldable pub put_condition : Condition → List Condition → List Condition
put_condition new [] = new ∷ []
put_condition new (c ∷ cs) =
    let rest = put_condition new cs in
    if c.type == new.type
    then (if c.status != new.status || c.message != new.message then new ∷ cs else c ∷ cs)
    else c ∷ rest

abbrev pub Update : Type 0
Update = List Condition → List Condition

unfoldable pub set_condition : ℕ → String → ConditionStatus → String → String → Update
set_condition now type status reason message = put_condition (record {
  type = type;
  status = status;
  reason = reason;
  message = message;
  last_transition_time = now;
})

-- One statement after another.
infixl 20 ◌▷◌
abbrev pub ◌▷◌ : Update → Update → Update
◌▷◌ f g cs = g (f cs)

module _ (now : ℕ) where
  clear_all_error_conditions : String → String → Update
  clear_all_error_conditions reason message =
      set_condition now Texts.prereq_fail is_false reason message
      ▷ set_condition now Texts.failed is_false reason message

  clear_all_active_conditions : String → String → Update
  clear_all_active_conditions reason message =
      set_condition now Texts.drafting is_false reason message
      ▷ set_condition now Texts.in_progress is_false reason message
      ▷ set_condition now Texts.review_req is_false reason message

  clear_all_completion_conditions : String → String → Update
  clear_all_completion_conditions reason message =
      set_condition now Texts.completed is_false reason message
      ▷ set_condition now Texts.drifted is_false reason message

  set_phase_conditions : PlanPhase → String → Update
  unfolding clear_all_error_conditions clear_all_active_conditions clear_all_completion_conditions
  set_phase_conditions PlanPhase.pending _ =
      set_condition now Texts.ignored is_false "NotIgnored" Texts.msg_not_ignored
      ▷ clear_all_active_conditions "NotIgnored" Texts.msg_not_ignored
      ▷ clear_all_completion_conditions "NotIgnored" Texts.msg_not_ignored
      ▷ clear_all_error_conditions "NotIgnored" Texts.msg_not_ignored
  set_phase_conditions PlanPhase.drafting _ =
      set_condition now Texts.ignored is_false "NotIgnored" Texts.msg_not_ignored
      ▷ set_condition now Texts.drafting is_true "Drafting" Texts.msg_drafting
      ▷ set_condition now Texts.in_progress is_false "NotInProgress" Texts.msg_not_in_progress
      ▷ set_condition now Texts.review_req is_false "NotDrafting" Texts.msg_not_drafting
      ▷ clear_all_completion_conditions "NotDrafting" Texts.msg_not_drafting
      ▷ clear_all_error_conditions "NotDrafting" Texts.msg_not_drafting
  set_phase_conditions PlanPhase.review_required _ =
      set_condition now Texts.ignored is_false "NotIgnored" Texts.msg_not_ignored
      ▷ set_condition now Texts.drafting is_false "NotDrafting" Texts.msg_not_drafting
      ▷ set_condition now Texts.in_progress is_false "NotInProgress" Texts.msg_not_in_progress
      ▷ set_condition now Texts.review_req is_true "ReviewRequired" Texts.msg_review_required
      ▷ set_condition now Texts.completed is_false "NotCompleted" Texts.msg_not_yet_applied
      ▷ set_condition now Texts.drifted is_false "NoDrift" Texts.msg_no_drift
      ▷ clear_all_error_conditions "ReviewRequired" Texts.msg_review_required
  set_phase_conditions PlanPhase.in_progress _ =
      set_condition now Texts.ignored is_false "NotIgnored" Texts.msg_not_ignored
      ▷ set_condition now Texts.drafting is_false "NotDrafting" Texts.msg_not_drafting
      ▷ set_condition now Texts.in_progress is_true "InProgress" Texts.msg_in_progress
      ▷ set_condition now Texts.review_req is_false "InProgress" Texts.msg_in_progress
      ▷ clear_all_completion_conditions "InProgress" Texts.msg_in_progress
      ▷ clear_all_error_conditions "InProgress" Texts.msg_in_progress
  set_phase_conditions PlanPhase.completed _ =
      set_condition now Texts.ignored is_false "NotIgnored" Texts.msg_not_ignored
      ▷ set_condition now Texts.pending is_false "NotCompleted" Texts.msg_success
      ▷ set_condition now Texts.drafting is_false "NotDrafting" Texts.msg_not_drafting
      ▷ set_condition now Texts.in_progress is_false "NotInProgress" Texts.msg_applied
      ▷ set_condition now Texts.review_req is_false "NotCompleted" Texts.msg_success
      ▷ set_condition now Texts.completed is_true "Completed" Texts.msg_success
      ▷ set_condition now Texts.drifted is_false "NoDrift" Texts.msg_no_drift
      ▷ set_condition now Texts.prereq_fail is_false "Completed" "All prerequisites met"
      ▷ set_condition now Texts.failed is_false "Completed" "No failures occurred"
  set_phase_conditions PlanPhase.drifted _ =
      set_condition now Texts.ignored is_false "NotIgnored" Texts.msg_not_ignored
      ▷ set_condition now Texts.pending is_false "DriftDetected" Texts.msg_drift_detected
      ▷ clear_all_active_conditions "DriftDetected" Texts.msg_drift_detected
      ▷ set_condition now Texts.drifted is_true "DriftDetected" Texts.msg_drift_detected
      ▷ set_condition now Texts.completed is_false "ConfigurationDrifted"
          Texts.msg_completed_drifted
      ▷ clear_all_error_conditions "DriftDetected" Texts.msg_drift_detected
  set_phase_conditions PlanPhase.completed_with_errors _ =
      set_condition now Texts.ignored is_false "NotIgnored" Texts.msg_not_ignored
      ▷ set_condition now Texts.pending is_false "CompletedWithErrors" Texts.msg_with_errors
      ▷ clear_all_active_conditions "CompletedWithErrors" Texts.msg_with_errors
      ▷ set_condition now Texts.completed is_false "CompletedWithErrors" Texts.msg_with_errors
      ▷ set_condition now Texts.drifted is_false "CompletedWithErrors" Texts.msg_with_errors
      ▷ set_condition now Texts.prereq_fail is_false "CompletedWithErrors" Texts.msg_with_errors
  set_phase_conditions PlanPhase.completed_with_upgrade _ =
      set_condition now Texts.ignored is_false "NotIgnored" Texts.msg_not_ignored
      ▷ set_condition now Texts.pending is_false "NotCompleted" Texts.msg_success
      ▷ set_condition now Texts.drafting is_false "NotDrafting" Texts.msg_not_drafting
      ▷ set_condition now Texts.in_progress is_false "NotInProgress" Texts.msg_applied
      ▷ set_condition now Texts.review_req is_false "NotCompleted" Texts.msg_success
      ▷ set_condition now Texts.completed is_true "Completed" Texts.msg_success
      ▷ set_condition now Texts.drifted is_false "NoDrift" Texts.msg_no_drift
      ▷ set_condition now Texts.prereq_fail is_false "Completed" "All prerequisites met"
      ▷ set_condition now Texts.failed is_false "Completed" "No failures occurred"
  set_phase_conditions PlanPhase.failed custom =
      let message = if custom != "" then custom else Texts.msg_failed in
      set_condition now Texts.ignored is_false "NotIgnored" Texts.msg_not_ignored
      ▷ set_condition now Texts.pending is_false "Failed" message
      ▷ clear_all_active_conditions "Failed" message
      ▷ clear_all_completion_conditions "Failed" message
      ▷ set_condition now Texts.failed is_true "Failed" message
      ▷ set_condition now Texts.prereq_fail is_false "Failed" message
  set_phase_conditions PlanPhase.prerequisite_failed custom =
      let message = if custom != "" then custom else Texts.msg_prereq_failed in
      set_condition now Texts.ignored is_false "NotIgnored" Texts.msg_not_ignored
      ▷ set_condition now Texts.pending is_false "PrerequisitesFailed" message
      ▷ clear_all_active_conditions "PrerequisitesFailed" message
      ▷ clear_all_completion_conditions "PrerequisitesFailed" message
      ▷ set_condition now Texts.prereq_fail is_true "PrerequisitesFailed" message
      ▷ set_condition now Texts.failed is_false "PrerequisitesFailed" message
  set_phase_conditions PlanPhase.ignored _ =
      set_condition now Texts.ignored is_true "Ignored" Texts.msg_ignored
      ▷ clear_all_active_conditions "Ignored" Texts.msg_not_applicable
      ▷ clear_all_completion_conditions "Ignored" Texts.msg_not_applicable
      ▷ clear_all_error_conditions "Ignored" Texts.msg_not_applicable
  set_phase_conditions PlanPhase.unset _ = λ cs. cs
  set_phase_conditions (PlanPhase.unknown _) _ = λ cs. cs

-- The loop at the top of updatePhase: the first condition of the type is replaced without a test.
pub overwrite : Condition → List Condition → List Condition
overwrite new [] = new ∷ []
overwrite new (c ∷ cs) =
    let rest = overwrite new cs in if c.type == new.type then new ∷ cs else c ∷ rest

-- What updatePhase does to the conditions.
unfoldable pub phase_conditions : ℕ → PlanPhase → String → Update
unfolding overwrite set_phase_conditions
phase_conditions now phase message =
    overwrite (record {
      type = phase_text phase;
      status = is_true;
      reason = phase_text phase;
      message = message;
      last_transition_time = now;
    })
    ▷ set_phase_conditions now phase message
