-- ===== src/Controller/Reconcile/Recovery.antt =====
-- A plan in the PrerequisiteFailed phase waits for the CRDs of its profile.
use virt_advisor_operator.Base.{
  String, true, false, Option, none, some, List, [], ◌∷◌, ◌≡◌, ◌≢◌, refl, ap, ◌∙◌, arith, if_false,
}
use virt_advisor_operator.Api.{PlanPhase, PlanAction, action_eq}
use virt_advisor_operator.Kube.{
  Env, State, Outcome, done, fail, M, Result, ok, GetReply, final, ◌>>=◌, return, reads, lift,
  unless_error, writes, now, update_status, update_reply,
}
use virt_advisor_operator.Kube.Returns.{Holds}
use virt_advisor_operator.Discovery.{Prerequisite, check_prerequisites}
use virt_advisor_operator.Discovery.Missing.{
  Steady, absent_ones, any_failure, check_prerequisites-absent,
}
use virt_advisor_operator.Profiles.{Registry, Profile, get_profile}
use virt_advisor_operator.Controller.{update_phase}
use virt_advisor_operator.Controller.Reconcile.{
  Requeue, dispatch, act, resumed, reconcile, spec_changed, is_ignored, after_missing,
  handle_prerequisite_failed, in_two_minutes,
}
use virt_advisor_operator.Controller.Reconcile.Stuck.{acts_on}

abbrev phase_of {ℓ} : {A : Type ℓ} → Outcome A → PlanPhase
phase_of o = (final o).plan.status.phase

-- The phase to be in, by the CRDs that are absent.
abbrev pub waiting : List Prerequisite → PlanPhase
waiting [] = PlanPhase.pending
waiting (p ∷ ps) = PlanPhase.prerequisite_failed

module _ (env : Env) where
  pub answered : (r : Option String) (s : State) → final (update_reply r s) ≡ s
  unfolding update_reply final
  answered none s = refl
  answered (some e) s = refl

  pub phase-update_phase :
      (p : PlanPhase) (message : String) (s : State) → phase_of (update_phase env p message s) ≡ p
  unfolding update_phase now writes update_status ◌>>=◌
  phase-update_phase p message s = ap (λ t. t.plan.status.phase) (answered _ _)

  then_return :
      (o : Outcome (Unit {0})) (r : Requeue)
      → phase_of (elim o [ done a t ↦ done r t | fail e t ↦ fail e t ]) ≡ phase_of o
  unfolding final
  then_return (done a t) r = refl
  then_return (fail e t) r = refl

module _ (env : Env) (registry : Registry) where
  phase-after_missing :
      (ms : List Prerequisite) (s : State) → phase_of (after_missing env registry ms s) ≡ waiting ms
  unfolding after_missing ◌>>=◌ return
  phase-after_missing [] s = then_return env _ _ ∙ phase-update_phase env _ _ s
  phase-after_missing (m ∷ ms) s = then_return env _ _ ∙ phase-update_phase env _ _ s

  checked :
      (answer : String → GetReply) (ps : List Prerequisite) (h : String → M Requeue)
      (o : Outcome (List Prerequisite))
      → any_failure answer ps ≡ false
      → Holds
          (λ e. any_failure answer ps ≡ true)
          (λ missing. (any_failure answer ps ≡ false) × (missing ≡ absent_ones answer ps))
          o
      → phase_of (elim o [ done a t ↦ after_missing env registry a t | fail e t ↦ h e t ])
        ≡ waiting (absent_ones answer ps)
  checked answer ps h (done ms t) n k = phase-after_missing ms t ∙ ap waiting k.1
  checked answer ps h (fail e t) n k = ground arith

  found :
      (r : Result Profile) (p : Profile) (answer : String → GetReply) (s : State)
      → Steady env answer
      → r ≡ ok p
      → any_failure answer p.prerequisites ≡ false
      → phase_of (
          unless_error
            (lift r)
            (λ _. return in_two_minutes)
            (λ q.
              unless_error
                (check_prerequisites env q.prerequisites)
                (λ _. return in_two_minutes)
                (after_missing env registry))
            s)
        ≡ waiting (absent_ones answer p.prerequisites)
  unfolding unless_error lift
  found r p answer s steady e n = rw e (
      checked answer p.prerequisites _ _ n
        ((check_prerequisites-absent env answer steady p.prerequisites).at s))

  -- Let a plan be in the PrerequisiteFailed phase, its spec unchanged and its action not Ignore, its
  -- profile be registered, and the API server tell of each CRD of the profile, at any time the
  -- same, whether it is installed. Then a reconciliation moves the plan to Pending if all of them
  -- are installed, and else leaves it in PrerequisiteFailed.
  pub reconcile-prerequisites :
      (answer : String → GetReply) (p : Profile) (s : State)
      → Steady env answer
      → s.plan.spec.action ≢ PlanAction.ignore
      → s.plan.status.phase ≡ PlanPhase.prerequisite_failed
      → spec_changed s.plan ≡ false
      → get_profile env registry s.plan.spec.profile ≡ ok p
      → any_failure answer p.prerequisites ≡ false
      → (final (reconcile env registry s)).plan.status.phase
        ≡ waiting (absent_ones answer p.prerequisites)
  unfolding reconcile act resumed dispatch handle_prerequisite_failed ◌>>=◌ reads
  reconcile-prerequisites answer p s steady acts phase same known n =
      ap {A = M Requeue} (λ m. phase_of (m s)) (if_false _ _ (acts_on s.plan.spec.action acts))
      ∙ ap {A = M Requeue} (λ m. phase_of (m s)) (if_false _ _ (ap is_ignored phase))
      ∙ ap (λ q. phase_of (dispatch env registry q s.plan s)) phase
      ∙ ap {A = M Requeue} (λ m. phase_of (m s)) (if_false _ _ same)
      ∙ found _ p answer s steady known n
