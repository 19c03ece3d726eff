-- ===== src/Controller/Reconcile/Shipped.antt =====
-- Reconcile with the profiles that the operator ships.
use virt_advisor_operator.Base.{◌≡◌, ◌≢◌, ◌⊎◌}
use virt_advisor_operator.Api.{PlanAction, PlanPhase}
use virt_advisor_operator.Kube.{Env, State, ok, final}
use virt_advisor_operator.Kube.Applied.{applied, Reads-Reading}
use virt_advisor_operator.Profiles.{Registry}
use virt_advisor_operator.Profiles.Default.{init_registry, init_registry-default, default_registry}
use virt_advisor_operator.Profiles.Example.{Follows-example}
use virt_advisor_operator.Profiles.HigherDensity.Profile.{Follows-higher_density}
use virt_advisor_operator.Profiles.LoadAware.Profile.{Follows-load_aware}
use virt_advisor_operator.Controller.Quiet.Inputs.{QuietRegistry}
use virt_advisor_operator.Controller.Reconcile.{reconcile}
use virt_advisor_operator.Controller.Reconcile.Machine.{OneOf, reconcile-NoApply, reconcile-OneOf}
use virt_advisor_operator.Controller.Reconcile.Phases.{reachable}

module _ (env : Env) where
  default_registry-Quiet : QuietRegistry (default_registry env)
  default_registry-Quiet = (
    Follows-example Reads-Reading env,
    (Follows-higher_density Reads-Reading env, (Follows-load_aware Reads-Reading env, tt)),
  )

  -- Registering the profiles that the operator ships succeeds, and with them a reconciliation that
  -- starts outside of InProgress, or with action Ignore, applies no object to the cluster.
  pub init_registry-NoApply :
      (s : State)
      → (s.plan.spec.action ≡ PlanAction.ignore) ⊎ (s.plan.status.phase ≢ PlanPhase.in_progress)
      → (r : Registry) × ((init_registry env ≡ ok r)
          × (applied (final (reconcile env r s)).history ≡ applied s.history))
  init_registry-NoApply s h = (
    default_registry env,
    (
      init_registry-default env,
      reconcile-NoApply env (default_registry env) default_registry-Quiet s h,
    ),
  )

  -- Registering the profiles that the operator ships succeeds, and with them the phase after a
  -- reconciliation is the phase before it, or one that `reachable` lists for it and the action.
  init_registry-OneOf :
      (s : State)
      → (r : Registry) × ((init_registry env ≡ ok r)
          × (((final (reconcile env r s)).plan.status.phase ≡ s.plan.status.phase)
              ⊎ OneOf
                  (reachable s.plan.spec.action s.plan.status.phase)
                  (final (reconcile env r s)).plan.status.phase))
  init_registry-OneOf s = (
    default_registry env,
    (
      init_registry-default env,
      reconcile-OneOf env (default_registry env) default_registry-Quiet s,
    ),
  )
