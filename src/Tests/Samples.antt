-- ===== src/Tests/Samples.antt =====
-- A small cluster and plans for the tests: the API server answers every Get with one object and
-- accepts every write.
use virt_advisor_operator.Base.{
  String, false, ◌≡◌, ◌≢◌, arith, refl, inl, none, some, List, [], ◌∷◌, ◌==◌, string_eq,
  if◌then◌else◌,
}
use virt_advisor_operator.Base.Int.{ℤ, pos}
use virt_advisor_operator.Api.{
  PlanPhase, PlanAction, FailurePolicy, ItemState, Impact, Item, Config,
}
use virt_advisor_operator.Api.Json.{Value, Fields, obj, end, str, field}
use virt_advisor_operator.Kube.{Env, State, GetReply, ok, Nested, present, absent}
use virt_advisor_operator.Profiles.{Profile, Registry, Concrete}
use virt_advisor_operator.Kube.{return, final}
use virt_advisor_operator.Controller.Quiet.Inputs.{QuietRegistry}

abbrev pub condition_object : String → Value
condition_object type = obj (field "type" (str type) (field "status" (str "True") end))

-- Reads a field of an object, by the first name of a path.
abbrev pub read_field : Fields → List String → Nested Value
read_field end path = absent
read_field (field k v fs) [] = absent
read_field (field k v fs) (p ∷ path) =
    let rest = read_field fs (p ∷ path) in if k == p then present v else rest

abbrev pub read_object : Value → List String → Nested Value
read_object (obj fs) path = read_field fs path
read_object _ path = absent

abbrev as_text : Nested Value → Nested String
as_text (present (str s)) = present s
as_text _ = absent

-- Three machines, none of them degraded.
abbrev count_machines : List String → Nested ℤ
count_machines [] = absent
count_machines (k ∷ path) = if k == "degradedMachineCount" then present (pos 0) else present (pos 3)

-- A plan with items, in a phase.
abbrev pub config_in : PlanPhase → PlanAction → List Item → Config
config_in phase action items = record {
  name = "tuned";
  generation = 2;
  spec = record {
    profile = "tuned";
    action = action;
    failure_policy = FailurePolicy.abort;
    options = none;
    bypass_optimistic_lock = false;
    wait_timeout = none;
  };
  status = record {
    phase = phase;
    impact_severity = Impact.medium;
    observed_generation = 2;
    source_snapshot_hash = "approved";
    operator_version = "v0.1.31";
    applied_options = none;
    items = items;
    conditions = [];
  };
}

abbrev sample_config : Config
sample_config = config_in PlanPhase.completed PlanAction.apply []

abbrev pub cluster : Env
cluster = record {
  serve_get = λ h gvk name namespace. GetReply.found (obj end);
  serve_patch = λ h v o. ok v;
  serve_update = λ h c. none;
  serve_create = λ h a. none;
  clock = λ h. 7;
  unmarshal = λ s. ok (obj end);
  marshal = λ v. ok "cluster";
  marshal_indent = λ v. ok "";
  marshal_raw = λ s. ok s;
  marshal_selector = λ s. ok "";
  unmarshal_selector = λ s. ok (record { match_labels = []; match_expressions = [] });
  sha256 = λ s. s;
  yaml = λ v. ok "";
  unified_diff = λ a b c. ok "";
  quote = λ s. s;
  format_int = λ n. "0";
  parse_int = λ s. none;
  format_duration = λ n. "0s";
  scan_int32 = λ s. none;
  nested_field = read_object;
  nested_map = λ v p. absent;
  nested_int64 = λ v p. count_machines p;
  nested_bool = λ v p. absent;
  nested_string = λ v p. as_text (read_object v p);
  nested_slice = λ v p. present (condition_object "Updated" ∷ []);
  nested_string_slice = λ v p. present ("psi=1" ∷ []);
  remove_nested = λ v p. v;
  set_nested_map = λ v fs p. ok v;
  set_gvk = λ g v. v;
  set_name = λ n v. v;
  set_namespace = λ n v. v;
  set_labels = λ l v. v;
  group_version_text = λ g. g.version;
  gvk_text = λ g. g.kind;
  parse_group_version = λ s. ok ("", "v1");
  kind_of = λ v. "HyperConverged";
  api_version_of = λ v. "v1";
  name_of = λ v. "hco";
  namespace_of = λ v. "";
  gvk_of = λ v. record { group = ""; version = "v1"; kind = "HyperConverged" };
  label_of = λ v k. none;
  crd_versions = λ v. [];
  decode_config = λ v. sample_config;
}

abbrev pub item : Item
item = record {
  name = "tune";
  target_ref = record { api_version = "v1"; kind = "HyperConverged"; name = "hco"; namespace = "" };
  impact_severity = Impact.medium;
  diff = "";
  desired_state = some "{}";
  state = ItemState.pending;
  message = "";
  last_transition_time = none;
  managed_fields = "spec.a" ∷ [];
}

abbrev pub profile : Profile
profile = record {
  concrete = Concrete.other;
  name = "tuned";
  prerequisites = [];
  managed_resource_types = [];
  validate = λ m. none;
  generate_plan_items = λ m. return (item ∷ []);
  description = "";
  category = "";
  impact_summary = "";
  impact_level = Impact.medium;
  is_advertisable = false;
}

abbrev pub registry : Registry
registry = ("tuned", profile) ∷ []

abbrev pub plan_in : PlanPhase → PlanAction → List Item → State
plan_in phase action items = record { plan = config_in phase action items; history = [] }

pub registry-Quiet : QuietRegistry registry
unfolding return final
registry-Quiet = ((λ m. record { at = λ s. (refl, refl, λ c m. inl m) }), tt)

pub other : (a b : String) → (a == b) ≡ false → a ≢ b
other a b h e = ground (arith, string_eq.equal_iff a b)
