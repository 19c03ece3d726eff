-- ===== src/Tests/Profiles.antt =====
-- The theorems on the profiles at concrete inputs.
use Prim.Native.Char.{Char}
use virt_advisor_operator.Base.{
  ℕ, zero, suc, String, Bool, true, false, Option, none, some, List, [], ◌≡◌, ◌≢◌, ◌⊎◌, ◌↔◌, refl,
  inl, inr, arith, ap, sym, Bool-cases, All, Memᴰ, Distinct, ◌==◌, string_eq, if◌then◌else◌,
}
use virt_advisor_operator.Base.Int.{ℤ, pos, negsuc}
use virt_advisor_operator.Api.{PlanPhase, PlanAction, Impact, LoadAwareConfig, ProfileOptions}
use virt_advisor_operator.Api.Json.{obj, end, str}
use virt_advisor_operator.Kube.{Env, State, GroupVersionKind, ok, final}
use virt_advisor_operator.Kube.Applied.{applied}
use virt_advisor_operator.Kube.Returns.{Returns, Holds}
use virt_advisor_operator.Profiles.{Registry, load_aware_name, options_to_map}
use virt_advisor_operator.Profiles.Builder.{PlanItemBuilder, build}
use virt_advisor_operator.Profiles.Builder.Laws.{Built, Refused, build-Built}
use virt_advisor_operator.Profiles.Default.{default_registry, init_registry}
use virt_advisor_operator.Profiles.Eviction.{provided_limit}
use virt_advisor_operator.Profiles.LoadAware.Items.{custom_or}
use virt_advisor_operator.Profiles.LoadAware.Options.{ReadsBack, options_to_map-load_aware}
use virt_advisor_operator.Profiles.LoadAware.Profile.{descheduling_interval, enable_psi, validate}
use virt_advisor_operator.Profiles.LoadAware.Selected.{
  Kept, build_profiles_list-Mem, current_profiles, descheduler_reply,
}
use virt_advisor_operator.Profiles.LoadAware.Selection.{build_profiles_list}
use virt_advisor_operator.Profiles.ManagedTypes.{
  Managed, get_all_managed_resource_types, get_all_managed_resource_types-Managed,
}
use virt_advisor_operator.Profiles.Proposals.{Hindered, Items}
use virt_advisor_operator.Profiles.Proposals.Shipped.{names_of, default_registry-Items}
use virt_advisor_operator.Controller.Reconcile.{reconcile}
use virt_advisor_operator.Controller.Reconcile.Shipped.{init_registry-NoApply}
use virt_advisor_operator.Tests.Samples.{cluster, plan_in}

abbrev builder : PlanItemBuilder
builder = record {
  field_manager = "virt-advisor-operator";
  desired = some (obj end);
  name = "tune";
  managed_fields = [];
  impact_severity = Impact.unset;
  message = "";
}

abbrev started : State
started = plan_in PlanPhase.drafting PlanAction.apply []

build-Built_example :
    Returns (λ e. Refused cluster builder) (Built cluster builder) (build cluster builder)
build-Built_example = build-Built cluster builder

init_registry-NoApply_example :
    (r : Registry) × ((init_registry cluster ≡ ok r)
      × (applied (final (reconcile cluster r started)).history ≡ applied started.history))
init_registry-NoApply_example = init_registry-NoApply cluster started (inr (λ e. ground arith))

default_registry-Items_example :
    All
      (λ e.
        (m : List (String × String))
        → Returns (λ error. Hindered cluster) (Items (names_of e.0 m)) (e.1.generate_plan_items m))
      (default_registry cluster)
default_registry-Items_example = default_registry-Items cluster

build_profiles_list-Mem_example :
    Holds
      (λ e. ⊥)
      (λ l.
        (q : String)
        → Memᴰ q l
          ↔ (q ≡ "LongLifecycle")
            ⊎ (Memᴰ (str q) (current_profiles cluster (descheduler_reply cluster started))
                × Kept q))
      (build_profiles_list cluster "LongLifecycle" started)
build_profiles_list-Mem_example = build_profiles_list-Mem cluster "LongLifecycle" started

get_all_managed_resource_types-Managed_example :
    Distinct (get_all_managed_resource_types (default_registry cluster))
    × ((g : GroupVersionKind)
        → Memᴰ g (get_all_managed_resource_types (default_registry cluster))
          ↔ Managed g (default_registry cluster))
get_all_managed_resource_types-Managed_example =
    get_all_managed_resource_types-Managed (default_registry cluster)

-- Numbers in unary notation, after a letter for the sign.
abbrev unary : ℕ → String
unary zero = ""
unary (suc n) = String.◌∷◌ "1" (unary n)

abbrev measure : String → ℕ
measure String.[] = 0
measure (String.◌∷◌ c s) = suc (measure s)

abbrev write_int : ℤ → String
write_int (pos n) = String.◌∷◌ "+" (unary n)
write_int (negsuc n) = String.◌∷◌ "-" (unary n)

abbrev read_int : String → Option ℤ
read_int String.[] = none
read_int (String.◌∷◌ c s) =
    let n = measure s in if String.◌∷◌ c String.[] == "+" then some (pos n) else some (negsuc n)

measure-unary : (n : ℕ) → measure (unary n) ≡ n
measure-unary zero = refl
measure-unary (suc n) = ap suc (measure-unary n)

true≢false : true ≢ false
true≢false h = ground arith

abbrev is_empty : String → Bool
is_empty String.[] = true
is_empty (String.◌∷◌ c s) = false

nonempty : (c : Char) (s : String) → (String.◌∷◌ c s == "") ≡ false
nonempty c s = elim (Bool-cases (String.◌∷◌ c s == "")) [
  | inl e ↦ absurd (true≢false (sym (ap is_empty ((string_eq.equal_iff (String.◌∷◌ c s) "").0 e))))
  | inr e ↦ e
]

abbrev unary_cluster : Env
unary_cluster = record cluster { format_int = write_int; scan_int32 = read_int }

unary_cluster-ReadsBack : ReadsBack unary_cluster
unary_cluster-ReadsBack (pos n) h =
    (ap (λ k. some (pos k)) (measure-unary n), nonempty "+" (unary n))
unary_cluster-ReadsBack (negsuc n) h =
    (ap (λ k. some (negsuc k)) (measure-unary n), nonempty "-" (unary n))

abbrev limited : LoadAwareConfig
limited = record {
  descheduling_interval_seconds = some (pos 90);
  mode = some "Predictive";
  enable_psi_metrics = some false;
  dev_deviation_thresholds = none;
  eviction_limit_total = some (pos 9);
  eviction_limit_node = none;
}

abbrev options : ProfileOptions
options = record { load_aware = some limited; virt_higher_density = none }

options_to_map-load_aware_example :
    let m = options_to_map unary_cluster load_aware_name (some options) in
    (validate unary_cluster m ≡ none)
    × (descheduling_interval unary_cluster m ≡ pos 90)
    × (enable_psi m ≡ false)
    × (custom_or m "devDeviationThresholds" "AsymmetricLow" ≡ "AsymmetricLow")
    × (provided_limit unary_cluster m "evictionLimitTotal" ≡ some (pos 9))
    × (provided_limit unary_cluster m "evictionLimitNode" ≡ none)
    × (custom_or m "mode" "Automatic" ≡ "Automatic")
options_to_map-load_aware_example =
    options_to_map-load_aware unary_cluster unary_cluster-ReadsBack options limited refl refl refl
      tt
