-- ===== src/Plan/Hash.antt =====
-- The snapshot hash: buildResourceKey, extractManagedState, fetchResourceForHashing,
-- ComputeCurrentStateHash and DetectDrift of internal/plan/plan.go.
pub mod Managed
use virt_advisor_operator.Base.{
  String, Bool, List, [], ◌∷◌, ◌==◌, ◌!=◌, if◌then◌else◌, string_eq, ◌⊕◌,
}
use virt_advisor_operator.Api.{Item, ObjectReference}
use virt_advisor_operator.Api.Json.{Value, Fields, str, obj, end, field}
use virt_advisor_operator.Kube.{
  Env, M, Result, ok, err, Nested, present, absent, invalid, GroupVersionKind, ◌>>=◌, return, raise,
  lift, unless_error, on_reply,
}
use virt_advisor_operator.Util.{get_nested_map}
use virt_advisor_operator.Plan.{get_unstructured}
use virt_advisor_operator.Plan.Path.{parse_field_path}

-- `m[k] = v`.
pub put_field : String → Value → Fields → Fields
put_field k v end = field k v end
put_field k v (field j w fs) = if j == k then field k v fs else field j w (put_field k v fs)

pub build_resource_key : GroupVersionKind → String → String → String
build_resource_key gvk name namespace =
    if namespace != ""
    then gvk.group ⊕ "/" ⊕ gvk.version ⊕ "/" ⊕ gvk.kind ⊕ "/" ⊕ namespace ⊕ "/" ⊕ name
    else gvk.group ⊕ "/" ⊕ gvk.version ⊕ "/" ⊕ gvk.kind ⊕ "/" ⊕ name

module _ (env : Env) where
  -- The loop of extractManagedState over the managed fields.
  unfoldable pub extract_fields : Value → Item → List String → Fields → Result Fields
  extract_fields object item [] state = ok state
  extract_fields object item (path ∷ paths) state =
      elim (env.nested_field object (parse_field_path path)) [
        | present value ↦ extract_fields object item paths (put_field path value state)
        | absent ↦ extract_fields object item paths state
        | invalid e ↦ err (
            "failed to extract field " ⊕ path ⊕ " from " ⊕ item.target_ref.kind ⊕ "/"
            ⊕ item.target_ref.name ⊕ ": " ⊕ e)
      ]

  whole_spec : Nested Value → Result Fields
  whole_spec (present spec) = ok (put_field "spec" spec end)
  whole_spec absent = ok end
  whole_spec (invalid e) = err e

  unfoldable pub extract_paths : Value → Item → List String → Result Fields
  unfolding whole_spec
  extract_paths object item [] = whole_spec (get_nested_map env object ("spec" ∷ []))
  extract_paths object item (path ∷ paths) = extract_fields object item (path ∷ paths) end

  unfoldable pub extract_managed_state : Value → Item → Result Fields
  unfolding extract_paths
  extract_managed_state object item = extract_paths object item item.managed_fields

  unfoldable pub fetch_resource_for_hashing : Item → GroupVersionKind → M (String × Value)
  fetch_resource_for_hashing item gvk = do
    let ref = item.target_ref
    let key = build_resource_key gvk ref.name ref.namespace
    reply ← get_unstructured env gvk ref.name ref.namespace
    on_reply reply
        (λ object. do state ← lift (extract_managed_state object item); return (key, obj state))
        (λ _. return (key, obj (field "__state" (str "NOT_FOUND") end)))
        (λ e. raise ("failed to get resource " ⊕ ref.kind ⊕ "/" ⊕ ref.name ⊕ ": " ⊕ e))

  group_version_kind : ObjectReference → String × String → GroupVersionKind
  group_version_kind ref (group, version) = record {
    group = group;
    version = version;
    kind = ref.kind;
  }

  -- The loop of ComputeCurrentStateHash.
  unfoldable pub collect_states : List Item → Fields → M Fields
  unfolding group_version_kind
  collect_states [] states = return states
  collect_states (item ∷ items) states =
      unless_error (lift (env.parse_group_version item.target_ref.api_version))
        (λ e. raise ("failed to parse APIVersion " ⊕ item.target_ref.api_version ⊕ ": " ⊕ e))
        λ gv. fetch_resource_for_hashing item (group_version_kind item.target_ref gv) >>= λ entry.
          collect_states items (put_field entry.0 entry.1 states)

  unfoldable pub compute_current_state_hash : List Item → M String
  compute_current_state_hash items = do
    states ← collect_states items end
    unless_error (lift (env.marshal (obj states)))
        (λ e. raise ("failed to marshal resource states for hashing: " ⊕ e))
        λ bytes. return (env.sha256 bytes)

  unfoldable pub detect_drift : List Item → String → M Bool
  detect_drift items stored = do
    current ← compute_current_state_hash items
    return (current != stored)
