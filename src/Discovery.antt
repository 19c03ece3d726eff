-- ===== src/Discovery.antt =====
-- internal/discovery/crd_checker.go: which of a profile's CRDs are installed.
pub mod Missing
use Prim.Native.Char.{Char, code}
use virt_advisor_operator.Base.{
  String, Bool, true, false, List, [], ◌==◌, if◌then◌else◌, string_eq, nat_eq, ◌⊕◌,
}
use virt_advisor_operator.Kube.{
  Env, M, GroupVersionKind, ◌>>=◌, return, raise, unless_error, on_reply, get_object,
}

pub record Prerequisite : Type 0 where
  pub gvk : GroupVersionKind
  pub description : String

abbrev pub crd_gvk : GroupVersionKind
crd_gvk = record {
  group = "apiextensions.k8s.io";
  version = "v1";
  kind = "CustomResourceDefinition";
}

-- `c + ('a' - 'A')` for `c` from 'A' to 'Z', by the two alphabets; any other byte stays.
translate : String → String → Char → Char
translate (String.◌∷◌ from froms) (String.◌∷◌ to tos) c =
    let rest = translate froms tos c in if code from == code c then to else rest
translate _ _ c = c

lower : Char → Char
unfolding translate
lower = translate "ABCDEFGHIJKLMNOPQRSTUVWXYZ" "abcdefghijklmnopqrstuvwxyz"

to_lower : String → String
unfolding lower
to_lower String.[] = String.[]
to_lower (String.◌∷◌ c s) = String.◌∷◌ (lower c) (to_lower s)

plural : String → String
unfolding to_lower
plural kind =
    if kind == "MachineConfig"
    then "machineconfigs"
    else if kind == "MachineConfigPool"
    then "machineconfigpools"
    else if kind == "KubeDescheduler"
    then "kubedeschedulers"
    else to_lower kind ⊕ "s"

unfoldable pub gvk_to_crd_name : GroupVersionKind → String
unfolding plural
gvk_to_crd_name gvk = plural gvk.kind ⊕ "." ⊕ gvk.group

module _ (env : Env) where
  unfoldable pub crd_exists : String → M Bool
  crd_exists name = do
    reply ← get_object env crd_gvk name ""
    on_reply reply (λ _. return true) (λ _. return false) raise

  -- The loop of CheckPrerequisites; the missing ones in order.
  unfoldable pub check_prerequisites : List Prerequisite → M (List Prerequisite)
  check_prerequisites [] = return []
  check_prerequisites (List.◌∷◌ p ps) =
      unless_error (crd_exists (gvk_to_crd_name p.gvk))
        (λ e. raise ("failed to check CRD " ⊕ env.gvk_text p.gvk ⊕ ": " ⊕ e))
        λ exists. check_prerequisites ps >>= λ missing.
          return (if exists then missing else List.◌∷◌ p missing)

missing_lines : List Prerequisite → String
missing_lines [] = ""
missing_lines (List.◌∷◌ p ps) =
    "  - "
    ⊕ p.gvk.kind
    ⊕ " ("
    ⊕ p.gvk.group
    ⊕ "."
    ⊕ p.gvk.version
    ⊕ "): "
    ⊕ p.description
    ⊕ "\n"
    ⊕ missing_lines ps

unfoldable pub format_missing_prerequisites : List Prerequisite → String
unfolding missing_lines
format_missing_prerequisites [] = ""
format_missing_prerequisites missing = "Missing required dependencies:\n" ⊕ missing_lines missing
