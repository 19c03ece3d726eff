-- ===== src/Controller/Watches.antt =====
-- internal/controller/virtplatformconfig_watches.go: which VirtPlatformConfigs an event of a watched
-- object enqueues, as the list of their names. The list of all VirtPlatformConfigs is what `r.List`
-- returned.
pub mod Owners
pub mod Pools
pub mod Hco
pub mod Advertised
pub mod Setup
pub mod Registered
pub mod Requests
pub mod Waiting
pub mod Dependents
pub mod Creation
pub mod Loop
pub mod Presence
pub mod Again
pub mod Deleted
use virt_advisor_operator.Base.{
  String, Bool, true, false, List, [], ◌∷◌, ◌++◌, ◌==◌, ◌&&◌, if◌then◌else◌, string_eq,
}
use virt_advisor_operator.Api.{Config, Item, ObjectReference}
use virt_advisor_operator.Api.Json.{Value}
use virt_advisor_operator.Kube.{Env, Result, ok, err, GroupVersionKind}

-- `client.Object`: an unstructured one, or one of another type.
pub data Object : Type 0 where
  unstructured : Value → Object
  typed : Object

-- The events of a predicate.
pub data Event : Type 0 where
  created : Object → Event
  updated : Object → Object → Event
  deleted : Object → Event
  generic : Object → Event

-- The loop of a handler that enqueues each VirtPlatformConfig at most once.
unfoldable pub requests_for : (Config → Bool) → List Config → List String
requests_for test [] = []
requests_for test (config ∷ configs) =
    let rest = requests_for test configs in if test config then config.name ∷ rest else rest

-- `if err := r.List(…); err != nil { return nil }`.
unfoldable pub listed_or_none : Result (List Config) → (List Config → List String) → List String
listed_or_none (err e) f = []
listed_or_none (ok configs) f = f configs

module _ (env : Env) where
  -- The comparison of isManagedResource.
  unfoldable pub refers_to : Value → Item → Bool
  refers_to object item =
      let ref = item.target_ref in
      let gvk = env.gvk_of object in
      if ref.kind == gvk.kind && ref.name == env.name_of object
      then if ref.api_version == env.group_version_text gvk
        then ref.namespace == env.namespace_of object
        else false
      else false

  -- The inner loop of isManagedResource.
  unfoldable pub any_item : Value → List Item → Bool
  any_item object [] = false
  any_item object (item ∷ items) =
      let rest = any_item object items in if refers_to object item then true else rest

  unfoldable pub any_config : Value → List Config → Bool
  any_config object [] = false
  any_config object (config ∷ configs) =
      let rest = any_config object configs in
      if any_item object config.status.items then true else rest

  unfoldable pub is_managed_resource : Result (List Config) → Object → Bool
  is_managed_resource (err e) object = false
  is_managed_resource (ok configs) typed = false
  is_managed_resource (ok configs) (unstructured object) = any_config object configs

  -- `managedResourcePredicate`.
  unfoldable pub managed_resource_predicate : Result (List Config) → Event → Bool
  managed_resource_predicate listed (created object) = is_managed_resource listed object
  managed_resource_predicate listed (updated old object) = is_managed_resource listed object
  managed_resource_predicate listed (deleted object) = is_managed_resource listed object
  managed_resource_predicate listed (generic object) = is_managed_resource listed object

  -- The comparison of enqueueManagedResourceOwners, a copy of the other.
  unfoldable pub matches_target : Value → Item → Bool
  matches_target object item =
      let ref = item.target_ref in
      let gvk = env.gvk_of object in
      if ref.kind == gvk.kind && ref.name == env.name_of object
      then if ref.api_version == env.group_version_text gvk
        then ref.namespace == env.namespace_of object
        else false
      else false

  -- The inner loop of enqueueManagedResourceOwners: one request for each item.
  unfoldable pub item_requests : Value → String → List Item → List String
  item_requests object name [] = []
  item_requests object name (item ∷ items) =
      let rest = item_requests object name items in
      if matches_target object item then name ∷ rest else rest

  unfoldable pub config_requests : Value → List Config → List String
  config_requests object [] = []
  config_requests object (config ∷ configs) =
      item_requests object config.name config.status.items ++ config_requests object configs

  unfoldable pub enqueue_managed_resource_owners : Result (List Config) → Object → List String
  enqueue_managed_resource_owners listed typed = []
  enqueue_managed_resource_owners (err e) (unstructured object) = []
  enqueue_managed_resource_owners (ok configs) (unstructured object) =
      config_requests object configs
