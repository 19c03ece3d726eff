-- ===== src/Profiles/LoadAware/Options.antt =====
-- How the typed options of the load-aware profile reach it through the map of texts.
use virt_advisor_operator.Base.{
  String, Bool, true, false, Option, none, some, [], ◌∷◌, ◌++◌, ◌==◌, ◌!=◌, if◌then◌else◌,
  string_eq, ◌≡◌, refl, ◌∙◌, if_true, Bool-cases, inl, inr, All,
}
use virt_advisor_operator.Base.Int.{ℤ, pos, int32}
use virt_advisor_operator.Api.{LoadAwareConfig, ProfileOptions}
use virt_advisor_operator.Kube.{Env}
use virt_advisor_operator.Profiles.{
  ConfigMap, lookup, entry, format_bool, load_aware_to_map, options_to_map, load_aware_name,
  or_empty,
}
use virt_advisor_operator.Profiles.Eviction.{positive, int_or, provided_limit}
use virt_advisor_operator.Profiles.LoadAware.Items.{custom_or}
use virt_advisor_operator.Profiles.LoadAware.Profile.{
  descheduling_interval, enable_psi, validate, supported_keys,
}
use virt_advisor_operator.Profiles.LoadAware.Selection.{string_in_slice}

-- The text of an option that is set.
abbrev text_of {ℓ} : {A : Type ℓ} → (A → String) → Option A → Option String
text_of f none = none
text_of f (some a) = some (f a)

abbrev or_else {ℓ} : {A : Type ℓ} → Option A → Option A → Option A
or_else none b = b
or_else (some a) b = some a

or_else-none {ℓ} : {A : Type ℓ} (a : Option A) → or_else a none ≡ a
or_else-none none = refl
or_else-none (some a) = refl

lookup-append :
    (k : String) (a b : ConfigMap) → lookup k (a ++ b) ≡ or_else (lookup k a) (lookup k b)
unfolding lookup
lookup-append k [] b = refl
lookup-append k ((j, v) ∷ a) b = elim (Bool-cases (j == k)) [
  | inl e ↦ rw e refl
  | inr e ↦ rw e (lookup-append k a b)
]

lookup-entry {ℓ} :
    {A : Type ℓ} (k j : String) (f : A → String) (o : Option A)
    → lookup k (entry j f o) ≡ (if j == k then text_of f o else none)
unfolding lookup entry
lookup-entry k j f none = elim (Bool-cases (j == k)) [ inl e ↦ rw e refl | inr e ↦ rw e refl ]
lookup-entry k j f (some a) = refl

module _ (env : Env) (c : LoadAwareConfig) where
  abbrev the_map : ConfigMap
  the_map = load_aware_to_map env c

  lookup_interval :
      lookup "deschedulingIntervalSeconds" the_map
      ≡ text_of env.format_int c.descheduling_interval_seconds
  unfolding load_aware_to_map
  lookup_interval = simp (lookup-append, lookup-entry, or_else-none)

  lookup_psi : lookup "enablePSIMetrics" the_map ≡ text_of format_bool c.enable_psi_metrics
  unfolding load_aware_to_map
  lookup_psi = simp (lookup-append, lookup-entry, or_else-none)

  lookup_thresholds :
      lookup "devDeviationThresholds" the_map ≡ text_of (λ s. s) c.dev_deviation_thresholds
  unfolding load_aware_to_map
  lookup_thresholds = simp (lookup-append, lookup-entry, or_else-none)

  lookup_total : lookup "evictionLimitTotal" the_map ≡ text_of env.format_int c.eviction_limit_total
  unfolding load_aware_to_map
  lookup_total = simp (lookup-append, lookup-entry, or_else-none)

  lookup_node : lookup "evictionLimitNode" the_map ≡ text_of env.format_int c.eviction_limit_node
  unfolding load_aware_to_map
  lookup_node = simp (lookup-append, lookup-entry)

  -- The option mode is written to no key.
  lookup_mode : lookup "mode" the_map ≡ none
  unfolding load_aware_to_map
  lookup_mode = simp (lookup-append, lookup-entry)

-- An option of type `*int32`.
abbrev pub Fits : Option ℤ → Type 0
Fits none = Unit
Fits (some n) = int32 n ≡ n

-- The value of an option, or the default of the profile.
abbrev pub value_or {ℓ} : {A : Type ℓ} → Option A → A → A
value_or none d = d
value_or (some a) d = a

-- The text of an option, where an empty text is the default.
abbrev pub given_or : Option String → String → String
given_or none d = d
given_or (some s) d = if s != "" then s else d

-- What the documentation of strconv and fmt says of int32 numbers: FormatInt writes a text that
-- Sscanf reads back.
abbrev pub ReadsBack : Env → Type 0
ReadsBack env =
    (n : ℤ)
    → int32 n ≡ n
    → (env.scan_int32 (env.format_int n) ≡ some n) × ((env.format_int n == "") ≡ false)

abbrev Supported : ConfigMap → Type 0
Supported = All (λ e. string_in_slice e.0 supported_keys ≡ true)

validate-Supported : (env : Env) (m : ConfigMap) → Supported m → validate env m ≡ none
unfolding validate
validate-Supported env [] h = refl
validate-Supported env ((key, v) ∷ m) h = if_true _ _ h.0 ∙ validate-Supported env m h.1

append-Supported : (a b : ConfigMap) → Supported a → Supported b → Supported (a ++ b)
append-Supported [] b h k = k
append-Supported ((key, v) ∷ a) b h k = (h.0, append-Supported a b h.1 k)

entry-Supported {ℓ} :
    {A : Type ℓ} (key : String) (f : A → String) (o : Option A)
    → string_in_slice key supported_keys ≡ true
    → Supported (entry key f o)
unfolding entry
entry-Supported key f none h = tt
entry-Supported key f (some a) h = (h, tt)

load_aware_to_map-Supported :
    (env : Env) (c : LoadAwareConfig) → Supported (load_aware_to_map env c)
unfolding load_aware_to_map string_in_slice
load_aware_to_map-Supported env c =
    append-Supported _ _ (entry-Supported _ _ c.descheduling_interval_seconds refl) (
      append-Supported _ _ (entry-Supported _ _ c.enable_psi_metrics refl) (
        append-Supported _ _ (entry-Supported _ _ c.dev_deviation_thresholds refl) (
          append-Supported _ _ (entry-Supported _ _ c.eviction_limit_total refl)
            (entry-Supported _ _ c.eviction_limit_node refl))))

module _ (env : Env) (reads_back : ReadsBack env) where
  limit_of :
      (m : ConfigMap) (key : String) (o : Option ℤ)
      → Fits o
      → lookup key m ≡ text_of env.format_int o
      → provided_limit env m key ≡ positive o
  unfolding provided_limit
  limit_of m key none f h = rw (provided_limit, h) refl
  limit_of m key (some n) f h = rw (provided_limit, h, (reads_back n f).0, (reads_back n f).1) refl

  interval_of :
      (m : ConfigMap) (o : Option ℤ)
      → Fits o
      → lookup "deschedulingIntervalSeconds" m ≡ text_of env.format_int o
      → descheduling_interval env m ≡ int_or (positive o) (pos 60)
  unfolding descheduling_interval
  interval_of m none f h = rw (descheduling_interval, h) refl
  interval_of m (some n) f h = rw (descheduling_interval, h, (reads_back n f).0) refl

psi_of :
    (m : ConfigMap) (o : Option Bool)
    → lookup "enablePSIMetrics" m ≡ text_of format_bool o
    → enable_psi m ≡ value_or o true
unfolding enable_psi format_bool
psi_of m none h = rw (enable_psi, h) refl
psi_of m (some true) h = rw (enable_psi, h) refl
psi_of m (some false) h = rw (enable_psi, h) refl

custom_of :
    (m : ConfigMap) (key default : String) (o : Option String)
    → lookup key m ≡ text_of (λ s. s) o
    → custom_or m key default ≡ given_or o default
unfolding custom_or
custom_of m key default none h = rw (custom_or, h) refl
custom_of m key default (some s) h = rw (custom_or, h) refl

-- The options of the load-aware profile, of 32 bits each where they are numbers, pass through the map
-- of texts: the profile accepts the map and reads from it the interval, the use of PSI and the
-- thresholds of the options or their defaults, and the limits that are positive. It never reads the
-- option mode: the descheduler's mode is Automatic whatever that option says.
pub options_to_map-load_aware :
    (env : Env)
    → ReadsBack env
    → (o : ProfileOptions) (c : LoadAwareConfig) → o.load_aware ≡ some c
    → Fits c.descheduling_interval_seconds
    → Fits c.eviction_limit_total
    → Fits c.eviction_limit_node
    → let m = options_to_map env load_aware_name (some o) in
      (validate env m ≡ none)
      × (descheduling_interval env m ≡ int_or (positive c.descheduling_interval_seconds) (pos 60))
      × (enable_psi m ≡ value_or c.enable_psi_metrics true)
      × (custom_or m "devDeviationThresholds" "AsymmetricLow"
          ≡ given_or c.dev_deviation_thresholds "AsymmetricLow")
      × (provided_limit env m "evictionLimitTotal" ≡ positive c.eviction_limit_total)
      × (provided_limit env m "evictionLimitNode" ≡ positive c.eviction_limit_node)
      × (custom_or m "mode" "Automatic" ≡ "Automatic")
unfolding options_to_map or_empty
options_to_map-load_aware env reads_back o c h f g k = rw h (
  validate-Supported env _ (load_aware_to_map-Supported env c),
  interval_of env reads_back _ _ f (lookup_interval env c),
  psi_of _ _ (lookup_psi env c),
  custom_of _ _ _ _ (lookup_thresholds env c),
  limit_of env reads_back _ _ _ g (lookup_total env c),
  limit_of env reads_back _ _ _ k (lookup_node env c),
  custom_of _ _ _ none (lookup_mode env c),
)
