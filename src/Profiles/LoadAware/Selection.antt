-- ===== src/Profiles/LoadAware/Selection.antt =====
-- Which KubeDescheduler profiles the load-aware profile asks for: selectDeschedulerProfile,
-- extractAvailableProfiles and buildProfilesList of internal/profiles/loadaware/profile.go.
use virt_advisor_operator.Base.{
  String, Bool, true, false, List, [], ◌∷◌, ◌++◌, ◌==◌, ◌||◌, if◌then◌else◌, string_eq,
}
use virt_advisor_operator.Api.Json.{Value, str}
use virt_advisor_operator.Kube.{
  Env, M, State, present, absent, invalid, GroupVersionKind, ◌>>=◌, return, on_reply,
}
use virt_advisor_operator.Util.{get_nested_slice}
use virt_advisor_operator.Kube.Effects.{Follows, follow_rules}
use virt_advisor_operator.Kube.Applied.{Reading, quiet_rules}
use virt_advisor_operator.Discovery.{crd_gvk}
use virt_advisor_operator.Plan.{get_unstructured}
use virt_advisor_operator.Plan.Quiet.{quiet_plan}
use virt_advisor_operator.Plan.Wait.{is_map}

abbrev pub kube_descheduler_gvk : GroupVersionKind
kube_descheduler_gvk = record {
  group = "operator.openshift.io";
  version = "v1";
  kind = "KubeDescheduler";
}

abbrev pub kube_descheduler_crd : String
kube_descheduler_crd = "kubedeschedulers.operator.openshift.io"

abbrev pub kube_descheduler_name : String
kube_descheduler_name = "cluster"

abbrev pub kube_descheduler_namespace : String
kube_descheduler_namespace = "openshift-kube-descheduler-operator"

abbrev pub relieve_and_migrate : String
relieve_and_migrate = "KubeVirtRelieveAndMigrate"

abbrev pub dev_relieve_and_migrate : String
dev_relieve_and_migrate = "DevKubeVirtRelieveAndMigrate"

abbrev pub long_lifecycle : String
long_lifecycle = "LongLifecycle"

-- `preferredProfiles`.
abbrev pub preferred_profiles : List String
preferred_profiles = relieve_and_migrate ∷ dev_relieve_and_migrate ∷ long_lifecycle ∷ []

unfoldable pub string_in_slice : String → List String → Bool
string_in_slice s [] = false
string_in_slice s (item ∷ slice) =
    let rest = string_in_slice s slice in if item == s then true else rest

-- The texts among the values: `if s, ok := e.(string); ok`.
unfoldable pub texts : List Value → List String
texts [] = []
texts (str s ∷ vs) = s ∷ texts vs
texts (_ ∷ vs) = texts vs

-- The loop of selectDeschedulerProfile.
unfoldable pub first_available : List String → List String → String
first_available available [] = relieve_and_migrate
first_available available (preferred ∷ rest) =
    let next = first_available available rest in
    if string_in_slice preferred available then preferred else next

-- `if len(profiles) > 0 { return profiles }`.
or_else : List String → List String → List String
or_else [] rest = rest
or_else (p ∷ ps) rest = p ∷ ps

-- Whether a profile that exists is kept.
unfoldable pub is_preserved : String → Bool
is_preserved profile = profile == "AffinityAndTaints" || profile == "SoftTopologyAndDuplicates"

-- The loop of buildProfilesList.
unfoldable pub preserved : List Value → List String
preserved [] = []
preserved (str profile ∷ vs) =
    let rest = preserved vs in if is_preserved profile then profile ∷ rest else rest
preserved (_ ∷ vs) = preserved vs

abbrev profiles_path : List String
profiles_path =
    "schema" ∷ "openAPIV3Schema" ∷ "properties" ∷ "spec" ∷ "properties" ∷ "profiles" ∷ []

module _ (env : Env) where
  enum_of : Value → List String
  enum_of schema = elim (env.nested_slice schema ("items" ∷ "enum" ∷ [])) [
    | present values ↦ texts values
    | absent ↦ []
    | invalid _ ↦ []
  ]

  version_profiles : Value → List String
  unfolding enum_of
  version_profiles v = elim (env.nested_map v profiles_path) [
    | present schema ↦ enum_of schema
    | absent ↦ []
    | invalid _ ↦ []
  ]

  -- The loop of extractAvailableProfiles over the versions.
  versions_from : List Value → List String
  unfolding version_profiles or_else
  versions_from [] = []
  versions_from (v ∷ vs) =
      let rest = versions_from vs in if is_map v then or_else (version_profiles v) rest else rest

  unfoldable pub extract_available_profiles : Value → List String
  unfolding versions_from
  extract_available_profiles crd = elim (get_nested_slice env crd ("spec" ∷ "versions" ∷ [])) [
    | present versions ↦ versions_from versions
    | absent ↦ []
    | invalid _ ↦ []
  ]

  unfoldable pub select_descheduler_profile : M String
  select_descheduler_profile = do
    reply ← get_unstructured env crd_gvk kube_descheduler_crd ""
    on_reply reply
        (λ crd. return (first_available (extract_available_profiles crd) preferred_profiles))
        (λ _. return relieve_and_migrate) (λ _. return relieve_and_migrate)

  -- The profiles to keep of the KubeDescheduler that exists.
  unfoldable pub kept_profiles : Value → List String
  kept_profiles existing = elim (get_nested_slice env existing ("spec" ∷ "profiles" ∷ [])) [
    | present current ↦ preserved current
    | absent ↦ []
    | invalid _ ↦ []
  ]

  unfoldable pub build_profiles_list : String → M (List String)
  build_profiles_list kube_virt_profile = do
    reply ←
        get_unstructured env kube_descheduler_gvk kube_descheduler_name kube_descheduler_namespace
    on_reply reply (λ existing. return (kept_profiles existing ++ kube_virt_profile ∷ []))
        (λ _. return (kube_virt_profile ∷ [])) (λ _. return (kube_virt_profile ∷ []))

module _ {R : State → State → Type 0} (base : Reading R) (env : Env) where
  pub Follows-select_descheduler_profile : Follows R (select_descheduler_profile env)
  unfolding select_descheduler_profile
  Follows-select_descheduler_profile = search (follow_rules, quiet_rules, quiet_plan) depth 8

  pub Follows-build_profiles_list : (profile : String) → Follows R (build_profiles_list env profile)
  unfolding build_profiles_list
  Follows-build_profiles_list profile = search (follow_rules, quiet_rules, quiet_plan) depth 8
