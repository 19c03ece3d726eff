-- ===== src/Controller/Sentinel.antt =====
-- internal/controller/crdsentinel_controller.go: the operator restarts when a CRD is installed that
-- was missing at its start; and the loop of cmd/main.go that marks the missing ones.
pub mod Restart
use virt_advisor_operator.Base.{
  String, Bool, true, false, Option, none, some, List, [], ◌∷◌, ◌==◌, if◌then◌else◌, any, string_eq,
  map,
}
use virt_advisor_operator.Kube.{
  Env, M, Result, ok, err, ◌>>=◌, return, lift, unless_error, on_reply, get_object,
}
use virt_advisor_operator.Discovery.{Prerequisite, check_prerequisites, gvk_to_crd_name, crd_gvk}
use virt_advisor_operator.Profiles.{Registry, get_profile}

-- `CRDSentinelReconciler`: `MissingCRDs`, where `none` is a nil map. Only true is ever written.
pub record Sentinel : Type 0 where
  pub missing_crds : Option (List String)

-- `make(map[string]bool)` where the map is nil.
unfoldable pub made : Option (List String) → List String
made none = []
made (some names) = names

unfoldable pub mark_crd_missing : String → Sentinel → Sentinel
mark_crd_missing name r = record { missing_crds = some (name ∷ made r.missing_crds) }

unfoldable pub is_missing : Sentinel → String → Bool
is_missing r name = any (λ crd. crd == name) (made r.missing_crds)

-- How Reconcile ends: it returns, with or without an error, or it exits the operator.
pub data End : Type 0 where
  returned exited : End
  failed : String → End

module _ (env : Env) where
  unfoldable pub reconcile_crd : Sentinel → String → M End
  reconcile_crd r name =
      if is_missing r name
      then get_object env crd_gvk name "" >>= (λ reply.
        on_reply reply (λ _. return exited) (λ _. return returned) (λ e. return (failed e)))
      else return returned

  -- The loop of main over the missing prerequisites of a profile.
  unfoldable pub mark_all : List Prerequisite → Sentinel → Sentinel
  mark_all [] r = r
  mark_all (p ∷ ps) r = mark_all ps (mark_crd_missing (gvk_to_crd_name p.gvk) r)

  -- The loop of main over the registered profiles; errors are logged.
  unfoldable pub mark_profiles : Registry → List String → Sentinel → M Sentinel
  mark_profiles registry [] r = return r
  mark_profiles registry (name ∷ names) r =
      unless_error (lift (get_profile env registry name)) (λ _. mark_profiles registry names r)
        λ profile.
          unless_error (check_prerequisites env profile.prerequisites)
            (λ _. mark_profiles registry names r)
            λ missing. mark_profiles registry names (mark_all missing r)

  -- What main does of it, from the empty map.
  unfoldable pub start_sentinel : Registry → List String → M Sentinel
  start_sentinel registry names = mark_profiles registry names (record { missing_crds = some [] })
