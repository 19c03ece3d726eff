-- ===== src/Plan.antt =====
-- internal/plan: fetching and applying objects (dynamic.go, apply.go, executor.go).
pub mod Path
pub mod Hash
pub mod Diff
pub mod Wait
pub mod Quiet
pub mod Unused
pub mod Faults
pub mod Crds
use virt_advisor_operator.Base.{
  String, Bool, true, false, Option, none, some, ◌||◌, ◌==◌, ◌!=◌, if◌then◌else◌, string_eq, ◌⊕◌,
}
use virt_advisor_operator.Api.{Item}
use virt_advisor_operator.Api.Json.{Value, obj, end}
use virt_advisor_operator.Kube.{
  Env, M, Result, GroupVersionKind, GetReply, ApplyOptions, ◌>>=◌, ◌>>◌, return, raise, lift,
  unless_error, if_nil, get_object, patch_object,
}

-- `DefaultApplyOptions`.
abbrev pub default_apply_options : ApplyOptions
default_apply_options = record {
  field_manager = "virt-advisor-operator";
  force = true;
  dry_run = false;
}

module _ (env : Env) where
  -- `GetUnstructured`; the caller tells a NotFound error from others.
  unfoldable pub get_unstructured : GroupVersionKind → String → String → M GetReply
  get_unstructured gvk name namespace = get_object env gvk name namespace

  -- `CreateUnstructured`.
  unfoldable pub create_unstructured : GroupVersionKind → String → String → Value
  create_unstructured gvk name namespace =
      let object = env.set_name name (env.set_gvk gvk (obj end)) in
      if namespace != "" then env.set_namespace namespace object else object

  -- `ApplyUnstructured` with options that are not nil. The options that it builds for `Patch` are
  -- the three fields of `ApplyOptions`.
  unfoldable pub apply_unstructured : Value → ApplyOptions → M Value
  apply_unstructured object opts = patch_object env object opts

  -- `ExecuteItem`.
  unfoldable pub execute_item : Item → M (Unit {0})
  execute_item item =
      if_nil item.desired_state
        (raise "plan item missing desired state - this is a bug in plan generation")
        λ raw.
          unless_error (lift (env.unmarshal raw))
            (λ e. raise ("failed to unmarshal desired state: " ⊕ e))
            λ object.
              if env.kind_of object == ""
                || env.api_version_of object == ""
                || env.name_of object == ""
              then raise "desired state missing required fields (apiVersion, kind, or name)"
              else do apply_unstructured object default_apply_options; return tt
