-- ===== src/Tests/Watches.antt =====
-- The theorems on the watches and the sentinel at concrete inputs.
use mathlib.Core.Path.{Path}
use virt_advisor_operator.Base.{
  String, Bool, true, false, Option, none, some, List, [], ◌∷◌, ◌≡◌, ◌≢◌, ◌↔◌, refl, inl, inr,
  arith, ap, ◌∙◌, Memᴰ, Distinct, ◌==◌, string_eq, if◌then◌else◌, Bool-cases, if_true, if_false,
}
use virt_advisor_operator.Base.Int.{pos}
use virt_advisor_operator.Api.{Config, PlanPhase, PlanAction, Item}
use virt_advisor_operator.Api.Json.{Value, obj, end}
use virt_advisor_operator.Kube.{
  Env, State, Call, get, patch, update, create, GetReply, GroupVersionKind, gvk_eq, ok, done, final,
  present, get_object, on_reply, on_nested, ◌>>=◌, reads, unless_error, if_nil, lift, return, raise,
}
use virt_advisor_operator.Util.{get_nested_int64}
use virt_advisor_operator.Kube.Returns.{Returns}
use virt_advisor_operator.Discovery.{gvk_to_crd_name, check_prerequisites, crd_exists}
use virt_advisor_operator.Profiles.{
  get_profile, found_profile, lookup, load_aware_name, options_to_map,
}
use virt_advisor_operator.Profiles.Default.{default_registry}
use virt_advisor_operator.Profiles.Eviction.{
  hyper_converged_gvk, hyper_converged_name, hyper_converged_namespace, get_eviction_limits,
  scaled_limits, provided_limit, get_hco_migration_limits, compute_scaled_eviction_limit,
}
use virt_advisor_operator.Profiles.HigherDensity.Profile.{get_prerequisites}
use virt_advisor_operator.Profiles.LoadAware.Selection.{kube_descheduler_gvk}
use virt_advisor_operator.Controller.Hco.{
  hco_changed, hco_input_dependencies_changed, extract_applied_eviction_limits, limits_differ,
  has_explicit_limits, find_descheduler_item,
}
use virt_advisor_operator.Controller.Watches.Dependents.{hco_changed-enqueued}
use virt_advisor_operator.Controller.Watches.Hco.{enqueue_hco_dependent_configs}
use virt_advisor_operator.Controller.Reconcile.{no_requeue}
use virt_advisor_operator.Controller.Sentinel.{
  Sentinel, made, start_sentinel, mark_profiles, mark_all, mark_crd_missing,
}
use virt_advisor_operator.Controller.Sentinel.Restart.{
  Exits, Installed, Justified, start_sentinel-Exits,
}
use virt_advisor_operator.Controller.Watches.{
  enqueue_managed_resource_owners, managed_resource_predicate, updated, typed, unstructured,
}
use virt_advisor_operator.Controller.Watches.Advertised.{
  advertisable, initialize_advertised_profiles, reconcile_request,
  should_recreate_advertised_profile,
}
use virt_advisor_operator.Controller.Watches.Again.{initialize_advertised_profiles-again}
use virt_advisor_operator.Controller.Watches.Creation.{
  Advertises, created, initialize_advertised_profiles-Advertises,
}
use virt_advisor_operator.Controller.Watches.Deleted.{Recreates, reconcile_request-not_found}
use virt_advisor_operator.Controller.Watches.Owners.{
  Owner, enqueue_managed_resource_owners-Mem, managed_resource_predicate_iff,
}
use virt_advisor_operator.Controller.Watches.Pools.{enqueue_machine_config_pool_owners}
use virt_advisor_operator.Controller.Watches.Presence.{
  Cooperative, Known, initialize_advertised_profiles-Known,
}
use virt_advisor_operator.Controller.Watches.Registered.{
  Registered, Refused, setup_with_manager-Watching,
}
use virt_advisor_operator.Controller.Watches.Setup.{Watches, setup_with_manager}
use virt_advisor_operator.Controller.Watches.Waiting.{
  Waiting, enqueue_machine_config_pool_owners-Waiting,
}
use virt_advisor_operator.Tests.Samples.{cluster, config_in, item, plan_in}

abbrev listed : List Config
listed = config_in PlanPhase.completed PlanAction.apply (item ∷ []) ∷ []

enqueue_managed_resource_owners-Mem_example :
    Memᴰ "tuned" (enqueue_managed_resource_owners cluster (ok listed) (unstructured (obj end)))
    ↔ ((c : Config) × ((c.name ≡ "tuned") × Owner cluster (obj end) listed c))
enqueue_managed_resource_owners-Mem_example =
    enqueue_managed_resource_owners-Mem cluster (obj end) listed "tuned"

managed_resource_predicate_iff_example :
    (managed_resource_predicate cluster (ok listed) (updated typed (unstructured (obj end))) ≡ true)
    ↔ ((n : String) × Memᴰ n
          (enqueue_managed_resource_owners cluster (ok listed) (unstructured (obj end))))
managed_resource_predicate_iff_example =
    managed_resource_predicate_iff cluster (ok listed) (updated typed (unstructured (obj end)))

enqueue_machine_config_pool_owners-Waiting_example :
    Distinct (enqueue_machine_config_pool_owners (ok listed))
    × ((n : String)
        → Memᴰ n (enqueue_machine_config_pool_owners (ok listed))
          ↔ ((c : Config) × (Memᴰ c listed × ((c.name ≡ n) × Waiting c))))
enqueue_machine_config_pool_owners-Waiting_example =
    enqueue_machine_config_pool_owners-Waiting listed ((λ m. elim m [ ]), tt)

-- No object is there.
abbrev empty_cluster : Env
empty_cluster = record cluster { serve_get = λ h gvk name namespace. GetReply.not_found "gone" }

abbrev idle : State
idle = plan_in PlanPhase.unset PlanAction.ignore []

initialize_advertised_profiles-Advertises_example : Advertises empty_cluster idle (
    final (
      initialize_advertised_profiles empty_cluster
        (default_registry empty_cluster)
        ("virt-higher-density" ∷ [])
        idle))
initialize_advertised_profiles-Advertises_example =
    initialize_advertised_profiles-Advertises empty_cluster (default_registry empty_cluster)
      ("virt-higher-density" ∷ []) idle

reconcile_request-not_found_example :
    let registry = default_registry empty_cluster in
    let t = final (reconcile_request empty_cluster registry "virt-higher-density" idle) in
    (reconcile_request empty_cluster registry "virt-higher-density" idle ≡ done no_requeue t)
    × Recreates empty_cluster registry "virt-higher-density" idle t
    × Advertises empty_cluster idle t
reconcile_request-not_found_example =
    reconcile_request-not_found empty_cluster (default_registry empty_cluster) "virt-higher-density"
      idle "gone" refl

-- The answer of `Complete` in the tests.
abbrev no_error : Watches → Option String
no_error w = none

setup_with_manager-Watching_example :
    Returns
      (Refused empty_cluster (default_registry empty_cluster) none no_error)
      (λ w.
        (Path (Option String) none none)
        × ((no_error w ≡ none) × Registered empty_cluster (default_registry empty_cluster) w))
      (setup_with_manager empty_cluster none no_error (default_registry empty_cluster))
setup_with_manager-Watching_example =
    setup_with_manager-Watching empty_cluster (default_registry empty_cluster) none no_error

-- An API server that finds what it was sent.
abbrev sent : String → List Call → Bool
sent name [] = false
sent name (get _ _ _ ∷ h) = sent name h
sent name (patch _ _ ∷ h) = sent name h
sent name (update _ ∷ h) = sent name h
sent name (create a ∷ h) = let rest = sent name h in if a.name == name then true else rest

abbrev answer : Bool → GetReply
answer true = GetReply.found (obj end)
answer false = GetReply.not_found "gone"

abbrev keeping_cluster : Env
keeping_cluster = record cluster { serve_get = λ h gvk name namespace. answer (sent name h) }

answered : (b : Bool) (e : String) → answer b ≢ GetReply.failure e
answered true e h = ground arith
answered false e h = ground arith

found_sent : (b : Bool) (v : Value) → answer b ≡ GetReply.found v → b ≡ true
found_sent true v h = refl
found_sent false v h = ground arith

known : (name : String) (h : List Call) → sent name h ≡ true → Known keeping_cluster name h
known name h e = (obj end, ap answer e)

kept : (c : Call) (h : List Call) (name : String) → sent name h ≡ true → sent name (c ∷ h) ≡ true
kept (get _ _ _) h name e = e
kept (patch _ _) h name e = e
kept (update _) h name e = e
kept (create a) h name e = elim (Bool-cases (a.name == name)) [
  | inl f ↦ if_true _ _ f
  | inr f ↦ if_false _ _ f ∙ e
]

keeping_cluster-Cooperative : Cooperative keeping_cluster
keeping_cluster-Cooperative = record {
  answers = λ h name e. answered (sent name h) e;
  accepts = λ h a. refl;
  finds = λ h a e.
      known a.name (create a ∷ h) (if_true _ _ ((string_eq.equal_iff a.name a.name).1 refl));
  keeps = λ c h name k. known name (c ∷ h) (kept c h name (found_sent (sent name h) k.0 k.1));
}

advertised :
    should_recreate_advertised_profile keeping_cluster
      (default_registry keeping_cluster)
      "virt-higher-density"
    ≡ true
unfolding should_recreate_advertised_profile advertisable get_profile found_profile lookup
advertised = refl

initialize_advertised_profiles-Known_example :
    Known keeping_cluster "virt-higher-density"
      (final (
        initialize_advertised_profiles keeping_cluster
          (default_registry keeping_cluster)
          ("virt-higher-density" ∷ [])
          idle)).history
initialize_advertised_profiles-Known_example =
    initialize_advertised_profiles-Known keeping_cluster keeping_cluster-Cooperative
      (default_registry keeping_cluster) ("virt-higher-density" ∷ []) "virt-higher-density" idle
      (Memᴰ.head refl) advertised

initialize_advertised_profiles-again_example :
    let t = final (
      initialize_advertised_profiles keeping_cluster
        (default_registry keeping_cluster)
        ("virt-higher-density" ∷ [])
        idle) in
    created
      (final (
        initialize_advertised_profiles keeping_cluster
          (default_registry keeping_cluster)
          ("virt-higher-density" ∷ [])
          t)).history
    ≡ created t.history
initialize_advertised_profiles-again_example =
    initialize_advertised_profiles-again keeping_cluster keeping_cluster-Cooperative
      (default_registry keeping_cluster) ("virt-higher-density" ∷ []) idle

abbrev crd : GroupVersionKind
crd = record { group = "apiextensions.k8s.io"; version = "v1"; kind = "CustomResourceDefinition" }

abbrev marked : Sentinel
marked = record {
  missing_crds =
      some (
        "hyperconvergeds.hco.kubevirt.io" ∷ "machineconfigs.machineconfiguration.openshift.io"
        ∷ []);
}

abbrev looked : State
looked = record idle {
  history =
      get crd "hyperconvergeds.hco.kubevirt.io" ""
      ∷ get crd "machineconfigs.machineconfiguration.openshift.io" ""
      ∷ [];
}

start :
    start_sentinel empty_cluster (default_registry empty_cluster) ("virt-higher-density" ∷ []) idle
    ≡ done marked looked
unfolding start_sentinel mark_profiles mark_all mark_crd_missing made check_prerequisites crd_exists
    gvk_to_crd_name get_object on_reply ◌>>=◌ unless_error lift return raise get_profile
    found_profile lookup get_prerequisites
start = refl

start_sentinel-Exits_example :
    ((name : String) (u : State)
      → Exits empty_cluster marked name u
        ↔ (Memᴰ name (made marked.missing_crds) × Installed empty_cluster name u))
    × Justified empty_cluster marked
start_sentinel-Exits_example =
    start_sentinel-Exits empty_cluster (default_registry empty_cluster) ("virt-higher-density" ∷ [])
      marked idle looked start

-- The HyperConverged resource allows 3 migrations; the descheduler was set to 9.
abbrev second_of : List String → String
second_of (a ∷ b ∷ path) = b
second_of path = ""

abbrev moved_cluster : Env
moved_cluster = record cluster {
  nested_int64 =
      λ v path. if second_of path == "evictionLimits" then present (pos 9) else present (pos 3);
}

abbrev descheduler_item : Item
descheduler_item = record item {
  target_ref = record {
    api_version = "v1";
    kind = "KubeDescheduler";
    name = "cluster";
    namespace = "";
  };
}

abbrev balanced : State
balanced =
    let s = plan_in PlanPhase.completed PlanAction.apply (descheduler_item ∷ []) in
    record s { plan = record s.plan { spec = record s.plan.spec { profile = load_aware_name } } }

abbrev moved : State
moved = record balanced {
  history =
      get kube_descheduler_gvk "cluster" ""
      ∷ get hyper_converged_gvk hyper_converged_name hyper_converged_namespace
      ∷ [];
}

moved_changed :
    hco_changed moved_cluster (default_registry moved_cluster) balanced
    ≡ done (true, "HCO parallelMigrationsPerCluster changed (scaled 0 -> 0)") moved
unfolding get_nested_int64 hco_changed hco_input_dependencies_changed
    extract_applied_eviction_limits limits_differ has_explicit_limits get_eviction_limits
    scaled_limits provided_limit get_hco_migration_limits compute_scaled_eviction_limit
    find_descheduler_item get_object on_reply on_nested ◌>>=◌ reads unless_error if_nil lift return
    raise get_profile found_profile lookup options_to_map
moved_changed = refl

hco_changed-enqueued_example :
    Memᴰ "tuned" (enqueue_hco_dependent_configs (ok (balanced.plan ∷ [])))
hco_changed-enqueued_example =
    hco_changed-enqueued moved_cluster (default_registry moved_cluster) balanced moved
      "HCO parallelMigrationsPerCluster changed (scaled 0 -> 0)" (balanced.plan ∷ []) moved_changed
      (inl refl) (Memᴰ.head refl)
