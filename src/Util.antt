-- ===== src/Util.antt =====
-- internal/util/unstructured.go: the readers of unstructured objects. An error of apimachinery gets
-- the path as context.
pub mod Bounds
use virt_advisor_operator.Base.{String, Bool, List, [], ◌∷◌, ◌||◌, if◌then◌else◌, ◌⊕◌}
use virt_advisor_operator.Base.Int.{ℤ, pos, negsuc, ltb_ℤ, int32}
use virt_advisor_operator.Api.Json.{Value}
use virt_advisor_operator.Kube.{Env, Nested, present, absent, invalid}

-- `%v` of the names of a path.
spaced : List String → String
spaced [] = ""
spaced (f ∷ []) = f
spaced (f ∷ (g ∷ fs)) = f ⊕ " " ⊕ spaced (g ∷ fs)

unfoldable pub in_brackets : List String → String
unfolding spaced
in_brackets fields = "[" ⊕ spaced fields ⊕ "]"

-- What the readers return for what apimachinery returned: the first three lines of each.
unfoldable pub with_context {ℓ} : {A : Type ℓ} → String → List String → Nested A → Nested A
with_context type fields (present a) = present a
with_context type fields absent = absent
with_context type fields (invalid e) =
    invalid ("failed to get nested " ⊕ type ⊕ " at " ⊕ in_brackets fields ⊕ ": " ⊕ e)

unfoldable pub or_default {ℓ} : {A : Type ℓ} → A → Nested A → A
or_default default (present a) = a
or_default default absent = default
or_default default (invalid e) = default

module _ (env : Env) (object : Value) (fields : List String) where
  unfoldable pub get_nested_int64 : Nested ℤ
  unfolding with_context
  get_nested_int64 = with_context "int64" fields (env.nested_int64 object fields)

  in_int32 : Nested ℤ → Nested ℤ
  in_int32 (present value) =
      if ltb_ℤ (pos 2147483647) value || ltb_ℤ value (negsuc 2147483647)
      then invalid (
          "int64 value "
          ⊕ env.format_int value
          ⊕ " at "
          ⊕ in_brackets fields
          ⊕ " cannot be represented as int32")
      else present (int32 value)
  in_int32 absent = absent
  in_int32 (invalid e) = invalid e

  unfoldable pub get_nested_int32 : Nested ℤ
  unfolding with_context in_int32
  get_nested_int32 = in_int32 (with_context "int32" fields (env.nested_int64 object fields))

  unfoldable pub get_nested_string : Nested String
  unfolding with_context
  get_nested_string = with_context "string" fields (env.nested_string object fields)

  unfoldable pub get_nested_bool : Nested Bool
  unfolding with_context
  get_nested_bool = with_context "bool" fields (env.nested_bool object fields)

  unfoldable pub get_nested_map : Nested Value
  unfolding with_context
  get_nested_map = with_context "map" fields (env.nested_map object fields)

  unfoldable pub get_nested_slice : Nested (List Value)
  unfolding with_context
  get_nested_slice = with_context "slice" fields (env.nested_slice object fields)

  unfoldable pub get_nested_int64_or_default : ℤ → ℤ
  unfolding or_default
  get_nested_int64_or_default default = or_default default (env.nested_int64 object fields)

  unfoldable pub get_nested_string_or_default : String → String
  unfolding or_default
  get_nested_string_or_default default = or_default default (env.nested_string object fields)

  unfoldable pub get_nested_bool_or_default : Bool → Bool
  unfolding or_default
  get_nested_bool_or_default default = or_default default (env.nested_bool object fields)
