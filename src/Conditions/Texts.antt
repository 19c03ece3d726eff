-- ===== src/Conditions/Texts.antt =====
-- The condition types and messages, constants of
-- internal/controller/virtplatformconfig_controller.go.
use virt_advisor_operator.Base.{String}

abbrev pub pending : String
pending = "Pending"

abbrev pub drafting : String
drafting = "Drafting"

abbrev pub in_progress : String
in_progress = "InProgress"

abbrev pub completed : String
completed = "Completed"

abbrev pub drifted : String
drifted = "Drifted"

abbrev pub failed : String
failed = "Failed"

abbrev pub review_req : String
review_req = "ReviewRequired"

abbrev pub prereq_fail : String
prereq_fail = "PrerequisiteFailed"

abbrev pub completed_err : String
completed_err = "CompletedWithErrors"

abbrev pub ignored : String
ignored = "Ignored"

abbrev pub upgrade : String
upgrade = "UpgradeAvailable"

abbrev pub input_drift : String
input_drift = "InputDependencyDrift"

abbrev pub msg_drafting : String
msg_drafting = "Generating plan from profile"

abbrev pub msg_not_drafting : String
msg_not_drafting = "Plan generation completed"

abbrev pub msg_in_progress : String
msg_in_progress = "Applying plan configuration"

abbrev pub msg_not_in_progress : String
msg_not_in_progress = "Plan is not being applied"

abbrev pub msg_applied : String
msg_applied = "Plan application completed"

abbrev pub msg_review_required : String
msg_review_required = "Plan ready for review. Change action to 'Apply' to execute."

abbrev pub msg_success : String
msg_success = "Configuration successfully applied and in sync"

abbrev pub msg_not_yet_applied : String
msg_not_yet_applied = "Plan not yet applied"

abbrev pub msg_completed_drifted : String
msg_completed_drifted = "Configuration is no longer in sync - drift detected"

abbrev pub msg_with_errors : String
msg_with_errors = "Plan completed but some items failed"

abbrev pub msg_failed : String
msg_failed = "Plan execution failed"

abbrev pub msg_prereq_failed : String
msg_prereq_failed = "Required CRDs not installed"

abbrev pub msg_no_drift : String
msg_no_drift = "Configuration is in sync with desired state"

abbrev pub msg_drift_detected : String
msg_drift_detected = "Configuration has drifted from desired state"

abbrev pub msg_ignored : String
msg_ignored =
    "Configuration is ignored - no management actions will be performed. Resources remain in their current state and are now under manual control. Change action to 'DryRun' or 'Apply' to resume operator management."

abbrev pub msg_not_ignored : String
msg_not_ignored = "Configuration is being managed"

abbrev pub msg_not_applicable : String
msg_not_applicable = "Not applicable - configuration is ignored"
