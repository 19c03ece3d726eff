-- ===== src/Plan/Unused.antt =====
-- The helpers of internal/plan that nothing in the operator calls: ServerSideApply and GenerateDiff of
-- apply.go, GenerateSSADiffForManagedFields and PrettyPrintJSON of diff.go.
use virt_advisor_operator.Base.{String, Option, none, some, List, ◌⊕◌}
use virt_advisor_operator.Api.Json.{Value}
use virt_advisor_operator.Kube.{
  Env, M, ◌>>=◌, return, raise, lift, on_reply, unless_error, get_object, patch_object,
  ApplyOptions,
}
use virt_advisor_operator.Plan.{default_apply_options}
use virt_advisor_operator.Plan.Diff.{generate_ssa_diff}

options_or_default : Option ApplyOptions → ApplyOptions
options_or_default none = default_apply_options
options_or_default (some opts) = opts

module _ (env : Env) where
  -- The object that the reply leaves in `obj`.
  unfoldable pub server_side_apply : Value → Option ApplyOptions → M Value
  unfolding options_or_default
  server_side_apply object opts = patch_object env object (options_or_default opts)

  -- `isNew` is `client.IgnoreNotFound(err) != nil`: any error but NotFound.
  unfoldable pub generate_diff : Value → M String
  generate_diff desired = do
    let named = (env.gvk_of desired).kind ⊕ "/" ⊕ env.name_of desired
    reply ← get_object env (env.gvk_of desired) (env.name_of desired) (env.namespace_of desired)
    on_reply reply (λ _. return ("Updating " ⊕ named))
        (λ e. raise ("failed to get current object: " ⊕ e)) (λ _. return ("Creating new " ⊕ named))

  unfoldable pub generate_ssa_diff_for_managed_fields : Value → String → List String → M String
  generate_ssa_diff_for_managed_fields desired field_manager managed_fields =
      unless_error (generate_ssa_diff env desired field_manager) raise return

  unfoldable pub pretty_print_json : Value → M String
  pretty_print_json object = lift (env.marshal_indent object)
