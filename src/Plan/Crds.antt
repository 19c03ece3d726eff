-- ===== src/Plan/Crds.antt =====
-- CRDChecker of internal/plan/dynamic.go.
use virt_advisor_operator.Base.{String, Bool, true, false, List, [], ◌∷◌, if◌then◌else◌, ◌⊕◌}
use virt_advisor_operator.Kube.{Env, State, M, ◌>>=◌, return, raise, on_reply, get_object}
use virt_advisor_operator.Kube.Effects.{Follows, follow_rules, Follows-bind}
use virt_advisor_operator.Kube.Applied.{Reading, quiet_rules}
use virt_advisor_operator.Discovery.{crd_gvk}

module _ (env : Env) where
  -- `CRDExists`.
  unfoldable pub crd_exists : String → M Bool
  crd_exists name = do
    reply ← get_object env crd_gvk name ""
    on_reply reply (λ _. return true) (λ _. return false)
        (λ e. raise ("failed to check CRD existence: " ⊕ e))

  -- The loop of CheckRequiredCRDs; the missing ones in order.
  unfoldable pub check_required_crds : List String → M (List String)
  check_required_crds [] = return []
  check_required_crds (name ∷ names) = crd_exists name >>= λ exists.
      check_required_crds names >>= λ missing. return (if exists then missing else name ∷ missing)

module _ {R : State → State → Type 0} (base : Reading R) (env : Env) where
  Follows-crd_exists : (name : String) → Follows R (crd_exists env name)
  unfolding crd_exists
  Follows-crd_exists name = search (follow_rules, quiet_rules) depth 8

  pub Follows-check_required_crds :
      (names : List String) → Follows R (check_required_crds env names)
  unfolding check_required_crds
  Follows-check_required_crds [] = search follow_rules
  Follows-check_required_crds (name ∷ names) =
      Follows-bind base.order _ _ (Follows-crd_exists name) (λ exists.
        Follows-bind base.order _ _ (Follows-check_required_crds names)
          (λ missing. search follow_rules))
