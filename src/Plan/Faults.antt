-- ===== src/Plan/Faults.antt =====
-- internal/plan/diff.go: a diff fails only where the API server or a library does.
use virt_advisor_operator.Base.{String, ◌==◌, string_eq}
use virt_advisor_operator.Api.Json.{Value}
use virt_advisor_operator.Kube.{Env}
use virt_advisor_operator.Kube.Returns.{
  Returns, Returns-return, Returns-raise, Returns-if, Returns-lift, Returns-bind,
  Returns-unless_error, Returns-on_reply,
}
use virt_advisor_operator.Kube.Faults.{
  Fault, failed, Returns-get_object, Returns-patch_object, yaml_fault, diff_fault,
}
use virt_advisor_operator.Plan.{get_unstructured, apply_unstructured}
use virt_advisor_operator.Plan.Diff.{
  generate_ssa_diff, dry_run_apply, generate_creation_diff, generate_unified_diff,
}

module _ (env : Env) where
  Returns-dry_run_apply :
      (desired : Value) (manager : String)
      → Returns (λ e. Fault env) (λ a. Unit {0}) (dry_run_apply env desired manager)
  unfolding dry_run_apply apply_unstructured
  Returns-dry_run_apply desired manager =
      Returns-unless_error _ _ _ (Returns-patch_object env _ _) (λ e h. Returns-raise _ h)
        (λ a h. Returns-return a tt)

  Returns-creation :
      (object : Value)
      → Returns (λ e. Fault env) (λ a. Unit {0}) (generate_creation_diff env object)
  unfolding generate_creation_diff
  Returns-creation object =
      Returns-unless_error _ _ _ (Returns-lift (env.yaml object))
        (λ e h. Returns-raise _ (yaml_fault object e h)) (λ a h. Returns-return _ tt)

  Returns-unified :
      (live result : Value) (name kind : String)
      → Returns (λ e. Fault env) (λ a. Unit {0}) (generate_unified_diff env live result name kind)
  unfolding generate_unified_diff
  Returns-unified live result name kind =
      Returns-unless_error _ _ _ (Returns-lift (env.yaml live))
        (λ e h. Returns-raise _ (yaml_fault live e h))
        λ a _.
          Returns-unless_error _ _ _ (Returns-lift (env.yaml result))
            (λ e h. Returns-raise _ (yaml_fault result e h))
            λ b _.
              Returns-if (a == b) _ _ (λ _. Returns-return _ tt)
                λ _.
                  Returns-unless_error _ _ _ (Returns-lift (env.unified_diff a b _))
                    (λ e h. Returns-raise _ (diff_fault a b _ e h)) (λ c h. Returns-return c tt)

  pub Returns-generate_ssa_diff :
      (desired : Value) (manager : String)
      → Returns (λ e. Fault env) (λ a. Unit {0}) (generate_ssa_diff env desired manager)
  unfolding generate_ssa_diff get_unstructured
  Returns-generate_ssa_diff desired manager =
      Returns-bind _ _ (Returns-get_object env _ _ _) λ reply answered.
        Returns-on_reply reply _ _ _
          (λ live _.
            Returns-bind _ _ (Returns-dry_run_apply desired manager)
              (λ result _. Returns-unified _ _ _ _))
          (λ e _.
            Returns-bind _ _ (Returns-dry_run_apply desired manager)
              (λ result _. Returns-creation _))
          (λ e h. Returns-raise _ (failed env _ _ _ e reply answered h))
