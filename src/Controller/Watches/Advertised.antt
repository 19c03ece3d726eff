-- ===== src/Controller/Watches/Advertised.antt =====
-- The VirtPlatformConfigs that advertise profiles: shouldRecreateAdvertisedProfile,
-- createAdvertisedProfile and initializeAdvertisedProfiles of
-- internal/controller/virtplatformconfig_watches.go, and Reconcile of
-- internal/controller/virtplatformconfig_controller.go from its request on. These functions leave the
-- object in memory alone; `names` is what `Registry.List` returned, in any order.
use virt_advisor_operator.Base.{String, Bool, true, false, not, List, [], ◌∷◌, if◌then◌else◌, ◌⊕◌}
use virt_advisor_operator.Api.{Advertised, PlanAction}
use virt_advisor_operator.Kube.{
  Env, M, Result, ok, err, GroupVersionKind, ◌>>=◌, ◌>>◌, return, raise, lift, unless_error,
  on_reply, get_object, create_object, writes,
}
use virt_advisor_operator.Profiles.{Registry, Profile, get_profile}
use virt_advisor_operator.Controller.Reconcile.{Requeue, no_requeue, reconcile}

abbrev pub config_gvk : GroupVersionKind
config_gvk = record {
  group = "advisor.kubevirt.io";
  version = "v1alpha1";
  kind = "VirtPlatformConfig";
}

-- The object that createAdvertisedProfile makes.
abbrev pub advertisement : String → Profile → Advertised
advertisement name profile = record {
  name = name;
  annotations =
      ("advisor.kubevirt.io/description", profile.description)
      ∷ ("advisor.kubevirt.io/impact-summary", profile.impact_summary)
      ∷ ("advisor.kubevirt.io/auto-created", "true")
      ∷ [];
  labels = ("advisor.kubevirt.io/category", profile.category) ∷ [];
  profile = name;
  action = PlanAction.ignore;
}

unfoldable pub advertisable : Result Profile → Bool
advertisable (ok profile) = profile.is_advertisable
advertisable (err e) = false

-- `Registry.List`.
unfoldable pub list : Registry → List String
list [] = []
list ((name, profile) ∷ registry) = name ∷ list registry

unfoldable pub should_recreate_advertised_profile : Env → Registry → String → Bool
unfolding advertisable
should_recreate_advertised_profile env registry name = advertisable (get_profile env registry name)

module _ (env : Env) (registry : Registry) where
  unfoldable pub create_advertised_profile : String → M Bool
  create_advertised_profile name =
      unless_error (lift (get_profile env registry name))
        (λ e. raise ("profile not found in registry: " ⊕ e))
        λ profile. get_object env config_gvk name "" >>= λ reply.
          on_reply reply (λ _. return false)
            (λ _.
              unless_error (create_object env (advertisement name profile))
                (λ e. raise ("failed to create VirtPlatformConfig: " ⊕ e)) (λ _. return true))
            (λ e. raise ("failed to check for existing VirtPlatformConfig: " ⊕ e))

  -- The body of the loop, whose errors are logged.
  unfoldable pub advertise : String → M (Unit {0})
  advertise name =
      unless_error (lift (get_profile env registry name)) (λ _. return tt)
        λ profile.
          if not profile.is_advertisable
          then return tt
          else unless_error (create_advertised_profile name) (λ _. return tt) (λ _. return tt)

  -- The loop; the numbers of created and skipped profiles are only logged.
  unfoldable pub initialize_advertised_profiles : List String → M (Unit {0})
  initialize_advertised_profiles [] = return tt
  initialize_advertised_profiles (name ∷ names) =
      advertise name >> initialize_advertised_profiles names

  unfoldable pub recreate : String → M Requeue
  recreate name =
      if should_recreate_advertised_profile env registry name
      then unless_error (create_advertised_profile name) (λ _. return no_requeue)
          (λ _. return no_requeue)
      else return no_requeue

  -- `Reconcile`, for the request of a name.
  unfoldable pub reconcile_request : String → M Requeue
  reconcile_request name = get_object env config_gvk name "" >>= λ reply.
      on_reply reply (λ object. writes (λ _. env.decode_config object) >> reconcile env registry)
        (λ _. recreate name) raise
