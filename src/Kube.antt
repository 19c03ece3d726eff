-- ===== src/Kube.antt =====
-- What the controller works on: the VirtPlatformConfig in memory (`configPlan`), the calls that it
-- made of the API server, and the functions that it takes from Go's and vendored packages.
--
-- The API server is a parameter. Its answer to a call may depend on all calls before it, so other
-- actors may change the cluster between any two calls. The history is kept newest first.
pub mod Effects
pub mod Applied
pub mod Returns
pub mod Faults
pub mod Endings
use virt_advisor_operator.Base.{
  ℕ, String, Bool, Option, none, some, List, [], ◌∷◌, if◌then◌else◌, ◌==◌, ◌&&◌, ◌≡◌, ◌↔◌, true,
  arith, Comparable, string_eq,
}
use virt_advisor_operator.Base.Int.{ℤ}
use virt_advisor_operator.Api.{Config, LabelSelector, Advertised}
use virt_advisor_operator.Api.Json.{Value, Fields, Schema}

-- `schema.GroupVersionKind`.
pub record GroupVersionKind : Type 0 where
  pub group : String
  pub version : String
  pub kind : String

-- `ApplyOptions` of internal/plan/apply.go.
pub record ApplyOptions : Type 0 where
  pub field_manager : String
  pub force : Bool
  pub dry_run : Bool

abbrev gvk_beq : GroupVersionKind → GroupVersionKind → Bool
gvk_beq a b = a.group == b.group && a.version == b.version && a.kind == b.kind

pub gvk_beq_iff : (a b : GroupVersionKind) → (gvk_beq a b ≡ true) ↔ (a ≡ b)
gvk_beq_iff a b = ground (
  arith,
  string_eq.equal_iff a.group b.group,
  string_eq.equal_iff a.version b.version,
  string_eq.equal_iff a.kind b.kind,
)

instance abbrev pub gvk_eq : Comparable GroupVersionKind
gvk_eq = record { equal = gvk_beq; equal_iff = gvk_beq_iff }

-- A call of the API server.
pub data Call : Type 0 where
  get : GroupVersionKind → String → String → Call
  patch : Value → ApplyOptions → Call
  update : Config → Call
  create : Advertised → Call

-- The answer to a `Get`: the object, a NotFound error, or another error.
pub data GetReply : Type 0 where
  found : Value → GetReply
  not_found : String → GetReply
  failure : String → GetReply

-- A pure function of the libraries that may return an error.
pub data Result {ℓ} (A : Type ℓ) : Type ℓ where
  ok : A → Result A
  err : String → Result A

-- What `unstructured.NestedX` returns: (value, found, err).
pub data Nested {ℓ} (A : Type ℓ) : Type ℓ where
  present : A → Nested A
  absent : Nested A
  invalid : String → Nested A

-- The API server, and the functions of the libraries that the controller calls.
pub record Env : Type 0 where
  pub serve_get : List Call → GroupVersionKind → String → String → GetReply
  pub serve_patch : List Call → Value → ApplyOptions → Result Value
  pub serve_create : List Call → Advertised → Option String
  pub serve_update : List Call → Config → Option String
  pub clock : List Call → ℕ
  -- encoding/json, crypto/sha256 (in hexadecimal), sigs.k8s.io/yaml and go-difflib
  pub unmarshal : String → Result Value
  pub marshal : Value → Result String
  pub marshal_indent : Value → Result String
  pub marshal_raw : String → Result String
  pub marshal_selector : LabelSelector → Result String
  pub unmarshal_selector : String → Result LabelSelector
  pub sha256 : String → String
  pub yaml : Value → Result String
  pub unified_diff : String → String → String → Result String
  -- fmt and strconv
  pub format_int : ℤ → String
  -- the verb `%q`
  pub quote : String → String
  pub parse_int : String → Option ℤ
  pub format_duration : ℕ → String
  pub scan_int32 : String → Option ℤ
  -- k8s.io/apimachinery
  pub nested_field : Value → List String → Nested Value
  pub nested_map : Value → List String → Nested Value
  pub nested_int64 : Value → List String → Nested ℤ
  pub nested_bool : Value → List String → Nested Bool
  pub nested_string : Value → List String → Nested String
  pub nested_slice : Value → List String → Nested (List Value)
  pub nested_string_slice : Value → List String → Nested (List String)
  pub remove_nested : Value → List String → Value
  pub set_nested_map : Value → Fields → List String → Result Value
  pub set_gvk : GroupVersionKind → Value → Value
  pub set_name : String → Value → Value
  pub set_namespace : String → Value → Value
  pub set_labels : List (String × String) → Value → Value
  pub group_version_text : GroupVersionKind → String
  -- `String` of a GroupVersionKind
  pub gvk_text : GroupVersionKind → String
  pub parse_group_version : String → Result (String × String)
  pub kind_of : Value → String
  pub api_version_of : Value → String
  pub name_of : Value → String
  pub namespace_of : Value → String
  pub gvk_of : Value → GroupVersionKind
  pub label_of : Value → String → Option String
  -- the decoding of a VirtPlatformConfig
  pub decode_config : Value → Config
  -- `crd.Spec.Versions`: for each version its `Schema`, and that one's `OpenAPIV3Schema`
  pub crd_versions : Value → List (Option (Option Schema))

pub record State : Type 0 where
  pub plan : Config
  pub history : List Call

-- A Go function that returns `(A, error)` and works on the state. What it wrote before an error
-- stays written.
pub data Outcome {ℓ} (A : Type ℓ) : Type ℓ where
  done : A → State → Outcome A
  fail : String → State → Outcome A

abbrev pub M {ℓ} : Type ℓ → Type ℓ
M A = State → Outcome A

infixl 5 ◌>>=◌ ◌>>◌
unfoldable pub ◌>>=◌ {ℓ κ} : {A : Type ℓ} {B : Type κ} → M A → (A → M B) → M B
◌>>=◌ m f s = elim (m s) [ done a t ↦ f a t | fail e t ↦ fail e t ]

abbrev pub ◌>>◌ {ℓ κ} : {A : Type ℓ} {B : Type κ} → M A → M B → M B
m >> n = m >>= λ _. n

module _ {ℓ} {A : Type ℓ} where
  unfoldable pub return : A → M A
  return a s = done a s

  unfoldable pub raise : String → M A
  raise e s = fail e s

  -- Reads the object in memory.
  unfoldable pub reads : (Config → A) → M A
  reads f s = done (f s.plan) s

  -- The call's error as a value: `if err := f(); err != nil { … }`.
  unfoldable pub attempt : M A → M (Result A)
  attempt m s = elim (m s) [ done a t ↦ done (ok a) t | fail e t ↦ done (err e) t ]

  unfoldable pub lift : Result A → M A
  lift (ok a) s = done a s
  lift (err e) s = fail e s

-- `a, err := m(); if err != nil { h }; k`.
unfoldable pub unless_error {ℓ κ} :
    {A : Type ℓ} {B : Type κ} → M A → (String → M B) → (A → M B) → M B
unless_error m h k s = elim (m s) [ done a t ↦ k a t | fail e t ↦ h e t ]

-- `if a == nil { n } else { k }`.
unfoldable pub if_nil {ℓ κ} : {A : Type ℓ} {B : Type κ} → Option A → M B → (A → M B) → M B
if_nil none n k = n
if_nil (some a) n k = k a

-- A `Get` whose error is told apart by `errors.IsNotFound`.
unfoldable pub on_reply {ℓ} :
    {A : Type ℓ} → GetReply → (Value → M A) → (String → M A) → (String → M A) → M A
on_reply (found v) k n f = k v
on_reply (not_found e) k n f = n e
on_reply (failure e) k n f = f e

-- `value, found, err := unstructured.NestedX(…)`.
unfoldable pub on_nested {ℓ κ} :
    {A : Type ℓ} {B : Type κ} → Nested A → (A → M B) → M B → (String → M B) → M B
on_nested (present a) k n f = k a
on_nested absent k n f = n
on_nested (invalid e) k n f = f e

-- A `for` loop over a slice.
unfoldable pub for_each {ℓ} : {A : Type ℓ} → List A → (A → M (Unit {0})) → M (Unit {0})
unfolding return ◌>>=◌
for_each [] f = return tt
for_each (a ∷ rest) f = f a >> for_each rest f

-- The state that a function leaves, whether or not it returns an error.
unfoldable pub final {ℓ} : {A : Type ℓ} → Outcome A → State
final (done a t) = t
final (fail e t) = t

-- An assignment to the object in memory.
unfoldable pub writes : (Config → Config) → M (Unit {0})
writes f s = done tt (record s { plan = f s.plan })

unfoldable pub update_reply : Option String → M (Unit {0})
update_reply none s = done tt s
update_reply (some e) s = fail e s

module _ (env : Env) where
  -- `metav1.Now()`.
  unfoldable pub now : M ℕ
  now s = done (env.clock s.history) s

  -- `c.Get`.
  unfoldable pub get_object : GroupVersionKind → String → String → M GetReply
  get_object gvk name namespace s =
      done (env.serve_get s.history gvk name namespace)
        (record s { history = get gvk name namespace ∷ s.history })

  -- `c.Patch` with `client.Apply`; the reply takes the place of the object.
  unfoldable pub patch_object : Value → ApplyOptions → M Value
  patch_object v o s =
      lift (env.serve_patch s.history v o) (record s { history = patch v o ∷ s.history })

  -- `c.Create`.
  unfoldable pub create_object : Advertised → M (Unit {0})
  create_object object s =
      update_reply (env.serve_create s.history object)
        (record s { history = create object ∷ s.history })

  -- `r.Status().Update`. The object in memory keeps its fields.
  unfoldable pub update_status : M (Unit {0})
  unfolding update_reply
  update_status s =
      update_reply (env.serve_update s.history s.plan)
        (record s { history = update s.plan ∷ s.history })
