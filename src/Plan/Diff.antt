-- ===== src/Plan/Diff.antt =====
-- internal/plan/diff.go: the diff that a server-side apply would make.
use Prim.Native.Char.{code}
use virt_advisor_operator.Base.{
  String, true, List, [], ◌∷◌, ◌==◌, ◌!=◌, if◌then◌else◌, string_eq, nat_eq, ◌⊕◌, length,
}
use virt_advisor_operator.Base.Int.{pos}
use virt_advisor_operator.Api.Json.{Value}
use virt_advisor_operator.Kube.{
  Env, M, ApplyOptions, ◌>>=◌, return, raise, lift, unless_error, on_reply,
}
use virt_advisor_operator.Plan.{get_unstructured, apply_unstructured}

-- `strings.Split(s, "\n")`.
lines_from : String → String → List String
lines_from current String.[] = current ∷ []
lines_from current (String.◌∷◌ ch text) =
    let next = lines_from "" text in
    let same = lines_from (current ⊕ String.◌∷◌ ch String.[]) text in
    if code ch == 10 then current ∷ next else same

unfoldable pub split_lines : String → List String
unfolding lines_from
split_lines text = lines_from "" text

abbrev newline : String
newline = "\n"

-- The loop of generateCreationDiff.
additions : List String → String
additions [] = ""
additions (line ∷ lines) =
    if line != "" then "+" ⊕ line ⊕ newline ⊕ additions lines else additions lines

-- What generateUnifiedDiff returns where nothing changes.
abbrev pub no_changes_diff : String → String → String
no_changes_diff name kind =
    "--- " ⊕ name ⊕ " (" ⊕ kind ⊕ ")" ⊕ newline ⊕ "+++ " ⊕ name ⊕ " (" ⊕ kind ⊕ ")" ⊕ newline
    ⊕ "(no changes)" ⊕ newline

module _ (env : Env) where
  sanitize_for_diff : Value → Value
  sanitize_for_diff object =
      let remove = env.remove_nested in
      remove
        (remove
          (remove
            (remove
              (remove
                (remove (remove object ("metadata" ∷ "managedFields" ∷ []))
                  ("metadata" ∷ "resourceVersion" ∷ []))
                ("metadata" ∷ "generation" ∷ []))
              ("metadata" ∷ "creationTimestamp" ∷ []))
            ("metadata" ∷ "uid" ∷ []))
          ("metadata" ∷ "selfLink" ∷ []))
        ("status" ∷ [])

  unfoldable pub generate_creation_diff : Value → M String
  unfolding additions split_lines
  generate_creation_diff object =
      unless_error (lift (env.yaml object)) (λ e. raise ("failed to marshal object to YAML: " ⊕ e))
        λ text.
          let lines = split_lines text in
          return (
            "--- /dev/null"
            ⊕ newline
            ⊕ "+++ "
            ⊕ env.name_of object
            ⊕ " ("
            ⊕ env.kind_of object
            ⊕ ")"
            ⊕ newline
            ⊕ "@@ -0,0 +1,"
            ⊕ env.format_int (pos (length lines))
            ⊕ " @@"
            ⊕ newline
            ⊕ additions lines)

  unfoldable pub generate_unified_diff : Value → Value → String → String → M String
  generate_unified_diff live result name kind =
      unless_error (lift (env.yaml live))
        (λ e. raise ("failed to marshal live object to YAML: " ⊕ e))
        λ live_yaml.
          unless_error (lift (env.yaml result))
            (λ e. raise ("failed to marshal result object to YAML: " ⊕ e))
            λ result_yaml.
              if live_yaml == result_yaml
              then return (no_changes_diff name kind)
              else unless_error
                  (lift (env.unified_diff live_yaml result_yaml (name ⊕ " (" ⊕ kind ⊕ ")")))
                  (λ e. raise ("failed to generate unified diff: " ⊕ e)) return

  -- The options of the dry run.
  abbrev pub dry_run_options : String → ApplyOptions
  dry_run_options field_manager = record {
    field_manager = field_manager;
    force = true;
    dry_run = true;
  }

  unfoldable pub dry_run_apply : Value → String → M Value
  dry_run_apply desired field_manager =
      unless_error (apply_unstructured env desired (dry_run_options field_manager))
        (λ e. raise ("failed to perform dry-run apply: " ⊕ e)) return

  -- `GenerateSSADiff`.
  unfoldable pub generate_ssa_diff : Value → String → M String
  unfolding sanitize_for_diff generate_creation_diff generate_unified_diff
  generate_ssa_diff desired field_manager = do
    reply ←
        get_unstructured env (env.gvk_of desired) (env.name_of desired) (env.namespace_of desired)
    on_reply reply
        (λ live. do
          result ← dry_run_apply desired field_manager
          generate_unified_diff (sanitize_for_diff live) (sanitize_for_diff result)
              (env.name_of desired) (env.kind_of desired))
        (λ _. do
          result ← dry_run_apply desired field_manager
          generate_creation_diff (sanitize_for_diff result))
        (λ e. raise ("failed to get live object: " ⊕ e))
