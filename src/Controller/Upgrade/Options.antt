-- ===== src/Controller/Upgrade/Options.antt =====
-- Which changes of the options optionsChanged sees.
use virt_advisor_operator.Base.{
  String, Bool, true, false, Option, none, some, ◌≡◌, ◌↔◌, arith, Comparable, string_eq, bool_eq,
}
use virt_advisor_operator.Base.Int.{ℤ, int_eq}
use virt_advisor_operator.Api.{ProfileOptions, LoadAwareConfig}
use virt_advisor_operator.Controller.Upgrade.{ptr_equal, load_aware_changed, options_changed}

ptr_equal_iff {ℓ} :
    {A : Type ℓ} ⦃e : Comparable A⦄ (a b : Option A) → (ptr_equal a b ≡ true) ↔ (a ≡ b)
unfolding ptr_equal
ptr_equal_iff none none = ground arith
ptr_equal_iff none (some b) = ground arith
ptr_equal_iff (some a) none = ground arith
ptr_equal_iff ⦃e⦄ (some a) (some b) = ground (arith, e.equal_iff a b)

-- The part of the options that the comparison reads.
abbrev pub Seen : Type 0
Seen = Option (Option ℤ × Option Bool × Option String)

abbrev pub seen : Option LoadAwareConfig → Seen
seen none = none
seen (some c) =
    some (c.descheduling_interval_seconds, c.enable_psi_metrics, c.dev_deviation_thresholds)

same_fields :
    (c a : LoadAwareConfig)
    → (load_aware_changed (some c) (some a) ≡ false) ↔ (seen (some c) ≡ seen (some a))
unfolding load_aware_changed
same_fields c a = ground (
  arith,
  ptr_equal_iff c.descheduling_interval_seconds a.descheduling_interval_seconds,
  ptr_equal_iff c.enable_psi_metrics a.enable_psi_metrics,
  ptr_equal_iff c.dev_deviation_thresholds a.dev_deviation_thresholds,
)

load_aware_changed_iff :
    (c a : Option LoadAwareConfig) → (load_aware_changed c a ≡ false) ↔ (seen c ≡ seen a)
unfolding load_aware_changed
load_aware_changed_iff none none = ground arith
load_aware_changed_iff none (some a) = ground arith
load_aware_changed_iff (some c) none = ground arith
load_aware_changed_iff (some c) (some a) = same_fields c a

-- Two sets of options count as unchanged exactly if both have no load-aware part, or both have one
-- with the same interval, PSI setting and thresholds: the eviction limits, the mode and the options
-- of the virt-higher-density profile are not compared.
pub options_changed_iff :
    (current applied : ProfileOptions)
    → (options_changed (some current) (some applied) ≡ false)
      ↔ (seen current.load_aware ≡ seen applied.load_aware)
unfolding options_changed
options_changed_iff current applied = load_aware_changed_iff current.load_aware applied.load_aware
