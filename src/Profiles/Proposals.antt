-- ===== src/Profiles/Proposals.antt =====
-- The items that a profile proposes: what the handler of the phase Drafting may rely on.
pub mod LoadAware
pub mod Density
pub mod Shipped
use virt_advisor_operator.Base.{
  String, none, some, List, [], ◌∷◌, ◌++◌, ◌≡◌, ◌≢◌, ◌⊎◌, refl, inl, inr, arith, ◌==◌, string_eq,
  false, ap, subst, sym, ◌∙◌,
}
use virt_advisor_operator.Api.{Item, ItemState, Impact}
use virt_advisor_operator.Api.Json.{Value, Fields}
use virt_advisor_operator.Kube.{Env, Call, GetReply}
use virt_advisor_operator.Kube.Faults.{Fault, set_fault}
use virt_advisor_operator.Kube.Returns.{
  Returns, Returns-return, Returns-raise, Returns-lift, Returns-unless_error, Returns-weaken,
}
use virt_advisor_operator.Discovery.{crd_gvk}
use virt_advisor_operator.Profiles.Builder.{PlanItemBuilder, build}
use virt_advisor_operator.Profiles.Builder.Laws.{Built, Rated, Refused, build-Built}
use virt_advisor_operator.Profiles.LoadAware.Items.{set_spec}

-- An item under a name, Pending, with an impact and with the object to apply.
pub record Proposed (name : String) (item : Item) : Type 0 where
  pub named : item.name ≡ name
  pub waiting : item.state ≡ ItemState.pending
  pub rated : item.impact_severity ≢ Impact.unset
  pub object : (text : String) × (item.desired_state ≡ some text)

-- Items under these names, in this order.
abbrev pub Items : List String → List Item → Type 0
Items [] [] = Unit
Items (name ∷ names) (item ∷ items) = Proposed name item × Items names items
Items _ _ = ⊥

-- A CRD is not installed.
abbrev pub Missing : Env → Type 0
Missing env =
    (h : List Call) × ((name : String) × ((e : String) × (env.serve_get h crd_gvk name ""
          ≡ GetReply.not_found e)))

-- Why a profile may propose no items: a call failed, or a CRD is missing.
abbrev pub Hindered : Env → Type 0
Hindered env = Fault env ⊎ Missing env

pub append-Items :
    (names : List String) (name : String) (items : List Item) (item : Item)
    → Items names items
    → Proposed name item
    → Items (names ++ name ∷ []) (items ++ item ∷ [])
append-Items [] name [] item h p = (p, tt)
append-Items [] name (i ∷ items) item h p = absurd h
append-Items (n ∷ names) name [] item h p = absurd h
append-Items (n ∷ names) name (i ∷ items) item h p = (h.0, append-Items names name items item h.1 p)

Rated-set : (asked given : Impact) → Rated asked given → given ≢ Impact.unset
Rated-set asked given r = ground arith

Built-Proposed :
    (env : Env) (b : PlanItemBuilder) (item : Item) → Built env b item → Proposed b.name item
Built-Proposed env b item built = record {
  named = built.named.0;
  waiting = built.fresh;
  rated = Rated-set _ _ built.rated;
  object = (built.text, built.encoded.1);
}

unrefused :
    (env : Env) (b : PlanItemBuilder) (desired : Value)
    → b.desired ≡ some desired
    → (b.name == "") ≡ false
    → Refused env b
    → Fault env
unrefused env b desired h n (Refused.no_object e) = ground arith
unrefused env b desired h n (Refused.no_name e) = ground arith
unrefused env b desired h n (Refused.fault f) = f

-- A builder with an object and a name.
pub Returns-build :
    (env : Env) (b : PlanItemBuilder) (desired : Value)
    → b.desired ≡ some desired
    → (b.name == "") ≡ false
    → Returns (λ e. Fault env) (Proposed b.name) (build env b)
Returns-build env b desired h n =
    Returns-weaken _ (build-Built env b) (λ e r. unrefused env b desired h n r)
      (λ item built. Built-Proposed env b item built)

pub Returns-set_spec :
    (env : Env) (desired : Value) (spec : Fields)
    → Returns (λ e. Fault env) (λ v. Unit {0}) (set_spec env desired spec)
unfolding set_spec
Returns-set_spec env desired spec =
    Returns-unless_error _ _ _ (Returns-lift (env.set_nested_map desired spec ("spec" ∷ [])))
      (λ e h. Returns-raise _ (set_fault desired spec _ e h)) (λ v h. Returns-return v tt)
