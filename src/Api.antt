-- ===== src/Api.antt =====
-- api/v1alpha1/virtplatformconfig_types.go: the VirtPlatformConfig resource.
-- A string type with an enumeration in its CRD is a data type with one constructor for each value;
-- a pointer is an `Option`; a time is a number; the raw bytes of `DesiredState` are a text.
pub mod Json
use virt_advisor_operator.Base.{
  ℕ, String, Bool, Option, List, ◌≡◌, ◌↔◌, true, arith, Comparable, ◌==◌, nat_eq, string_eq, ◌&&◌,
}
use virt_advisor_operator.Base.Int.{ℤ}

pub data PlanAction : Type 0 where
  dry_run apply ignore : PlanAction

pub data FailurePolicy : Type 0 where
  abort continue : FailurePolicy

-- `unset` is the empty string, `unknown` any text that the controller does not name.
pub data PlanPhase : Type 0 where
  unset pending drafting prerequisite_failed review_required in_progress : PlanPhase
  completed completed_with_errors completed_with_upgrade failed drifted ignored : PlanPhase
  unknown : String → PlanPhase

pub data ItemState : Type 0 where
  pending in_progress completed failed : ItemState

-- `unset` is the empty string.
pub data Impact : Type 0 where
  unset low medium high : Impact

-- `string(phase)`, also the type of the condition of that phase.
abbrev pub phase_text : PlanPhase → String
phase_text unset = ""
phase_text pending = "Pending"
phase_text drafting = "Drafting"
phase_text prerequisite_failed = "PrerequisiteFailed"
phase_text review_required = "ReviewRequired"
phase_text in_progress = "InProgress"
phase_text completed = "Completed"
phase_text completed_with_errors = "CompletedWithErrors"
phase_text completed_with_upgrade = "CompletedWithUpgrade"
phase_text failed = "Failed"
phase_text drifted = "Drifted"
phase_text ignored = "Ignored"
phase_text (unknown s) = s

abbrev action_code : PlanAction → ℕ
action_code PlanAction.dry_run = 0
action_code PlanAction.apply = 1
action_code PlanAction.ignore = 2

abbrev action_beq : PlanAction → PlanAction → Bool
action_beq a b = action_code a == action_code b

pub action_beq_iff : (a b : PlanAction) → (action_beq a b ≡ true) ↔ (a ≡ b)
action_beq_iff a b = ground arith

instance abbrev pub action_eq : Comparable PlanAction
action_eq = record { equal = action_beq; equal_iff = action_beq_iff }

abbrev policy_code : FailurePolicy → ℕ
policy_code FailurePolicy.abort = 0
policy_code FailurePolicy.continue = 1

abbrev policy_beq : FailurePolicy → FailurePolicy → Bool
policy_beq a b = policy_code a == policy_code b

pub policy_beq_iff : (a b : FailurePolicy) → (policy_beq a b ≡ true) ↔ (a ≡ b)
policy_beq_iff a b = ground arith

instance abbrev pub policy_eq : Comparable FailurePolicy
policy_eq = record { equal = policy_beq; equal_iff = policy_beq_iff }

abbrev state_code : ItemState → ℕ
state_code ItemState.pending = 0
state_code ItemState.in_progress = 1
state_code ItemState.completed = 2
state_code ItemState.failed = 3

abbrev state_beq : ItemState → ItemState → Bool
state_beq a b = state_code a == state_code b

pub state_beq_iff : (a b : ItemState) → (state_beq a b ≡ true) ↔ (a ≡ b)
state_beq_iff a b = ground arith

instance abbrev pub state_eq : Comparable ItemState
state_eq = record { equal = state_beq; equal_iff = state_beq_iff }

abbrev impact_code : Impact → ℕ
impact_code Impact.unset = 0
impact_code Impact.low = 1
impact_code Impact.medium = 2
impact_code Impact.high = 3

abbrev impact_beq : Impact → Impact → Bool
impact_beq a b = impact_code a == impact_code b

pub impact_beq_iff : (a b : Impact) → (impact_beq a b ≡ true) ↔ (a ≡ b)
impact_beq_iff a b = ground arith

instance abbrev pub impact_eq : Comparable Impact
impact_eq = record { equal = impact_beq; equal_iff = impact_beq_iff }

pub record ObjectReference : Type 0 where
  pub api_version : String
  pub kind : String
  pub name : String
  pub namespace : String

abbrev reference_beq : ObjectReference → ObjectReference → Bool
reference_beq a b =
    a.api_version == b.api_version
    && a.kind == b.kind
    && a.name == b.name
    && a.namespace == b.namespace

pub reference_beq_iff : (a b : ObjectReference) → (reference_beq a b ≡ true) ↔ (a ≡ b)
reference_beq_iff a b = ground (
  arith,
  string_eq.equal_iff a.api_version b.api_version,
  string_eq.equal_iff a.kind b.kind,
  string_eq.equal_iff a.name b.name,
  string_eq.equal_iff a.namespace b.namespace,
)

instance abbrev pub reference_eq : Comparable ObjectReference
reference_eq = record { equal = reference_beq; equal_iff = reference_beq_iff }

-- `VirtPlatformConfigItem`.
pub record Item : Type 0 where
  pub name : String
  pub target_ref : ObjectReference
  pub impact_severity : Impact
  pub diff : String
  pub desired_state : Option String
  pub state : ItemState
  pub message : String
  pub last_transition_time : Option ℕ
  pub managed_fields : List String

pub record LabelRequirement : Type 0 where
  pub key : String
  pub operator : String
  pub values : List String

-- `metav1.LabelSelector`, of which the code uses these two fields.
pub record LabelSelector : Type 0 where
  pub match_labels : List (String × String)
  pub match_expressions : List LabelRequirement

pub record LoadAwareConfig : Type 0 where
  pub descheduling_interval_seconds : Option ℤ
  pub mode : Option String
  pub enable_psi_metrics : Option Bool
  pub dev_deviation_thresholds : Option String
  pub eviction_limit_total : Option ℤ
  pub eviction_limit_node : Option ℤ

pub record KsmConfiguration : Type 0 where
  pub enabled : Option Bool
  pub node_label_selector : Option LabelSelector

pub record VirtHigherDensityConfig : Type 0 where
  pub enable_swap : Option Bool
  pub ksm_configuration : Option KsmConfiguration
  pub memory_to_request_ratio : Option ℤ

pub record ProfileOptions : Type 0 where
  pub load_aware : Option LoadAwareConfig
  pub virt_higher_density : Option VirtHigherDensityConfig

-- `VirtPlatformConfigSpec`.
pub record Spec : Type 0 where
  pub profile : String
  pub action : PlanAction
  pub failure_policy : FailurePolicy
  pub options : Option ProfileOptions
  pub bypass_optimistic_lock : Bool
  pub wait_timeout : Option ℕ

-- The VirtPlatformConfig that advertises a profile, as it is sent to the API server: its name,
-- annotations and labels, and the fields of its spec that are not empty.
pub record Advertised : Type 0 where
  pub name : String
  pub annotations : List (String × String)
  pub labels : List (String × String)
  pub profile : String
  pub action : PlanAction

-- `metav1.ConditionStatus`: True, False, Unknown.
pub data ConditionStatus : Type 0 where
  is_true is_false is_unknown : ConditionStatus

abbrev status_code : ConditionStatus → ℕ
status_code ConditionStatus.is_true = 0
status_code ConditionStatus.is_false = 1
status_code ConditionStatus.is_unknown = 2

abbrev status_beq : ConditionStatus → ConditionStatus → Bool
status_beq a b = status_code a == status_code b

pub status_beq_iff : (a b : ConditionStatus) → (status_beq a b ≡ true) ↔ (a ≡ b)
status_beq_iff a b = ground arith

instance abbrev pub status_eq : Comparable ConditionStatus
status_eq = record { equal = status_beq; equal_iff = status_beq_iff }

-- `metav1.Condition`, with the fields that the controller sets.
pub record Condition : Type 0 where
  pub type : String
  pub status : ConditionStatus
  pub reason : String
  pub message : String
  pub last_transition_time : ℕ

-- `VirtPlatformConfigStatus`.
pub record Status : Type 0 where
  pub phase : PlanPhase
  pub impact_severity : Impact
  pub observed_generation : ℕ
  pub source_snapshot_hash : String
  pub operator_version : String
  pub applied_options : Option ProfileOptions
  pub items : List Item
  pub conditions : List Condition

-- `VirtPlatformConfig`, with the metadata that the controller reads.
pub record Config : Type 0 where
  pub name : String
  pub generation : ℕ
  pub spec : Spec
  pub status : Status
