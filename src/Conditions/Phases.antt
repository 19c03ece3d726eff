-- ===== src/Conditions/Phases.antt =====
-- Which conditions hold after updatePhase. `writes` lists, for each phase, the types that
-- setPhaseConditions sets and to what, the first write first; the rest follows by evaluation.
use text.Mathlib.TextPositions.{eq_refl}
use virt_advisor_operator.Base.{
  ℕ, String, Option, some, List, [], ◌∷◌, ◌++◌, ◌≡◌, arith, ◌==◌, if◌then◌else◌, string_eq, All,
}
use virt_advisor_operator.Api.{PlanPhase, phase_text, ConditionStatus, is_true, is_false, Condition}
use virt_advisor_operator.Conditions.{phase_conditions}
use virt_advisor_operator.Conditions.Lookup.{
  status_of, status_of-set_condition, status_of-overwrite,
}

abbrev no_longer : List String → List (String × ConditionStatus)
no_longer [] = []
no_longer (k ∷ ks) = (k, is_false) ∷ no_longer ks

abbrev active : List String
active = "Drafting" ∷ "InProgress" ∷ "ReviewRequired" ∷ []

abbrev completion : List String
completion = "Completed" ∷ "Drifted" ∷ []

abbrev errors : List String
errors = "PrerequisiteFailed" ∷ "Failed" ∷ []

abbrev writes : PlanPhase → List (String × ConditionStatus)
writes PlanPhase.pending = no_longer ("Ignored" ∷ active ++ completion ++ errors)
writes PlanPhase.drafting =
    ("Ignored", is_false)
    ∷ ("Drafting", is_true)
    ∷ no_longer ("InProgress" ∷ "ReviewRequired" ∷ completion ++ errors)
writes PlanPhase.review_required =
    no_longer ("Ignored" ∷ "Drafting" ∷ "InProgress" ∷ [])
    ++ ("ReviewRequired", is_true) ∷ no_longer (completion ++ errors)
writes PlanPhase.in_progress =
    no_longer ("Ignored" ∷ "Drafting" ∷ [])
    ++ ("InProgress", is_true) ∷ no_longer ("ReviewRequired" ∷ completion ++ errors)
writes PlanPhase.completed =
    no_longer ("Ignored" ∷ "Pending" ∷ active)
    ++ ("Completed", is_true) ∷ no_longer ("Drifted" ∷ errors)
writes PlanPhase.drifted =
    no_longer ("Ignored" ∷ "Pending" ∷ active)
    ++ ("Drifted", is_true) ∷ no_longer ("Completed" ∷ errors)
writes PlanPhase.completed_with_errors =
    no_longer ("Ignored" ∷ "Pending" ∷ active ++ completion ++ "PrerequisiteFailed" ∷ [])
writes PlanPhase.completed_with_upgrade =
    no_longer ("Ignored" ∷ "Pending" ∷ active)
    ++ ("Completed", is_true) ∷ no_longer ("Drifted" ∷ errors)
writes PlanPhase.failed =
    no_longer ("Ignored" ∷ "Pending" ∷ active ++ completion)
    ++ ("Failed", is_true) ∷ no_longer ("PrerequisiteFailed" ∷ [])
writes PlanPhase.prerequisite_failed =
    no_longer ("Ignored" ∷ "Pending" ∷ active ++ completion)
    ++ ("PrerequisiteFailed", is_true) ∷ no_longer ("Failed" ∷ [])
writes PlanPhase.ignored = ("Ignored", is_true) ∷ no_longer (active ++ completion ++ errors)
writes PlanPhase.unset = []
writes (PlanPhase.unknown _) = []

abbrev after_writes :
    String → List (String × ConditionStatus) → Option ConditionStatus → Option ConditionStatus
after_writes k [] s = s
after_writes k ((j, v) ∷ ws) s = after_writes k ws (if j == k then some v else s)

ruleset lookup_laws = (status_of-set_condition, status_of-overwrite)

-- The status of every type at once.
status_of-phase_conditions :
    (k : String) (now : ℕ) (p : PlanPhase) (message : String) (cs : List Condition)
    → status_of k (phase_conditions now p message cs)
      ≡ after_writes k ((phase_text p, is_true) ∷ writes p) (status_of k cs)
unfolding phase_conditions
status_of-phase_conditions k now PlanPhase.unset message cs = simp lookup_laws
status_of-phase_conditions k now _ message cs = simp lookup_laws

abbrev without : String → List String → List String
without k [] = []
without k (j ∷ js) = if j == k then without k js else j ∷ without k js

abbrev exclusive : List String
exclusive = "Ignored" ∷ active ++ completion ++ errors

-- The types that must be False in a phase: all the exclusive ones but that of the phase itself,
-- Completed while an upgrade is offered, and Failed beside CompletedWithErrors.
abbrev pub others : PlanPhase → List String
others PlanPhase.unset = []
others (PlanPhase.unknown _) = []
others PlanPhase.completed_with_upgrade = without "Completed" exclusive
others PlanPhase.completed_with_errors = without "Failed" exclusive
others p = without (phase_text p) exclusive

-- The exclusive types that are True beside the one of the phase.
abbrev pub besides : PlanPhase → List String
besides PlanPhase.completed_with_upgrade = "Completed" ∷ []
besides _ = []

-- After updatePhase the condition that is named for the new phase is True, whatever the conditions
-- were before. In a phase that the controller names, Ignored, Drafting, InProgress, ReviewRequired,
-- Completed, Drifted, PrerequisiteFailed and Failed are False, but for the condition of the phase
-- itself, for Completed in CompletedWithUpgrade, which is True, and for Failed in
-- CompletedWithErrors, of which nothing is said. Without a phase, or in one that the controller does
-- not name, nothing is said of them.
pub phase_conditions-exclusive :
    (now : ℕ) (p : PlanPhase) (message : String) (cs : List Condition)
    → let after = phase_conditions now p message cs in
      (status_of (phase_text p) after ≡ some is_true)
      × All (λ k. status_of k after ≡ some is_false) (others p)
      × All (λ k. status_of k after ≡ some is_true) (besides p)
phase_conditions-exclusive now (PlanPhase.unknown s) message cs =
    simp (status_of-phase_conditions, eq_refl) (ground arith)
phase_conditions-exclusive now _ message cs = simp status_of-phase_conditions (ground arith)

abbrev markers : List String
markers =
    "CompletedWithErrors" ∷ "CompletedWithUpgrade" ∷ "UpgradeAvailable" ∷ "InputDependencyDrift"
    ∷ []

-- The types that a move to the phase leaves as they are. Pending is one of them on the way
-- Drafting, ReviewRequired, InProgress, and in Ignored.
abbrev pub left_alone : PlanPhase → List String
left_alone PlanPhase.drafting = "Pending" ∷ markers
left_alone PlanPhase.review_required = "Pending" ∷ markers
left_alone PlanPhase.in_progress = "Pending" ∷ markers
left_alone PlanPhase.ignored = "Pending" ∷ markers
left_alone PlanPhase.completed_with_errors = "Failed" ∷ without "CompletedWithErrors" markers
left_alone PlanPhase.completed_with_upgrade = without "CompletedWithUpgrade" markers
left_alone PlanPhase.unset = "Pending" ∷ exclusive ++ markers
left_alone (PlanPhase.unknown _) = []
left_alone p = markers

-- updatePhase leaves the status of the types in `left_alone` as it was: among them are Pending in
-- Drafting, ReviewRequired, InProgress and Ignored, and CompletedWithErrors and CompletedWithUpgrade in
-- every other phase that the controller names.
pub phase_conditions-left_alone :
    (now : ℕ) (p : PlanPhase) (message : String) (cs : List Condition)
    → All (λ k. status_of k (phase_conditions now p message cs) ≡ status_of k cs) (left_alone p)
phase_conditions-left_alone now (PlanPhase.unknown s) message cs = tt
phase_conditions-left_alone now _ message cs = simp status_of-phase_conditions (ground arith)
