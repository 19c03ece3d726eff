-- ===== src/Controller/Watches/Setup.antt =====
-- SetupWithManager of internal/controller/virtplatformconfig_watches.go: which watches it registers.
use virt_advisor_operator.Base.{
  String, Bool, false, Option, none, some, ◌⊕◌, List, [], ◌∷◌, if◌then◌else◌,
}
use virt_advisor_operator.Kube.{
  Env, M, Result, ok, err, GroupVersionKind, ◌>>=◌, return, raise, attempt,
}
use virt_advisor_operator.Discovery.{crd_exists, gvk_to_crd_name}
use virt_advisor_operator.Plan.Wait.{machine_config_pool_gvk}
use virt_advisor_operator.Profiles.{Registry}
use virt_advisor_operator.Profiles.Eviction.{hyper_converged_gvk}
use virt_advisor_operator.Profiles.ManagedTypes.{get_all_managed_resource_types}
use virt_advisor_operator.Controller.Watches.Advertised.{list, initialize_advertised_profiles}

-- The watches: the managed types, MachineConfigPool and HyperConverged.
pub record Watches : Type 0 where
  pub managed : List GroupVersionKind
  pub pools : Bool
  pub hco : Bool

-- `err == nil && exists`.
unfoldable pub found_crd : Result Bool → Bool
found_crd (ok exists) = exists
found_crd (err e) = false

-- `return controllerBuilder.Complete(r)`.
unfoldable pub completed : Option String → Watches → M Watches
completed none watches = return watches
completed (some e) watches = raise e

module _ (env : Env) where
  unfoldable pub is_installed : GroupVersionKind → M Bool
  is_installed gvk = attempt (crd_exists env (gvk_to_crd_name gvk)) >>= λ r. return (found_crd r)

  -- The loop over the managed types.
  unfoldable pub watched : List GroupVersionKind → M (List GroupVersionKind)
  watched [] = return []
  watched (gvk ∷ gvks) = is_installed gvk >>= λ exists.
      watched gvks >>= λ rest. return (if exists then gvk ∷ rest else rest)

  -- The watches, once the direct client is there.
  unfoldable pub registered_watches : Registry → M Watches
  registered_watches registry = watched (get_all_managed_resource_types registry) >>= λ managed.
      is_installed machine_config_pool_gvk >>= λ pools. is_installed hyper_converged_gvk >>= λ hco.
      initialize_advertised_profiles env registry (list registry) >>= λ _.
      return (record { managed = managed; pools = pools; hco = hco })

  -- `new_client` and `complete` are the errors, if any, of controller-runtime: of `client.New`, and of
  -- `Complete` for a builder with the watches.
  unfoldable pub setup_with_manager :
      Option String → (Watches → Option String) → Registry → M Watches
  unfolding registered_watches
  setup_with_manager (some e) complete registry =
      raise ("failed to create direct client for CRD checking: " ⊕ e)
  setup_with_manager none complete registry =
      registered_watches registry >>= λ watches. completed (complete watches) watches
