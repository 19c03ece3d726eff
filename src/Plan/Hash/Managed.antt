-- ===== src/Plan/Hash/Managed.antt =====
-- The managed state of an object depends on its managed fields alone.
use virt_advisor_operator.Base.{String, List, [], ◌∷◌, ◌≡◌, refl, ap, sym, ◌∙◌, ◌⊕◌, All}
use virt_advisor_operator.Api.{Item}
use virt_advisor_operator.Api.Json.{Value, Fields, end}
use virt_advisor_operator.Kube.{Env, Result, err, Nested, present, absent, invalid}
use virt_advisor_operator.Plan.Path.{parse_field_path}
use virt_advisor_operator.Plan.Hash.{
  put_field, extract_fields, extract_paths, extract_managed_state,
}

module _ (env : Env) (p q : Value) (item : Item) where
  -- The two objects agree on a field.
  abbrev pub Agree : String → Type 0
  Agree path =
      env.nested_field p (parse_field_path path) ≡ env.nested_field q (parse_field_path path)

  abbrev branch : String → Fields → (Fields → Result Fields) → Nested Value → Result Fields
  branch path state next (present value) = next (put_field path value state)
  branch path state next absent = next state
  branch path state next (invalid e) = err (
      "failed to extract field " ⊕ path ⊕ " from " ⊕ item.target_ref.kind ⊕ "/"
      ⊕ item.target_ref.name ⊕ ": " ⊕ e)

  same_branch :
      (path : String) (state : Fields) (f g : Fields → Result Fields)
      → ((next : Fields) → f next ≡ g next)
      → (n : Nested Value) → branch path state f n ≡ branch path state g n
  same_branch path state f g h (present value) = h _
  same_branch path state f g h absent = h _
  same_branch path state f g h (invalid e) = refl

  extract_fields-eq :
      (paths : List String) (state : Fields)
      → All Agree paths
      → extract_fields env p item paths state ≡ extract_fields env q item paths state
  unfolding extract_fields
  extract_fields-eq [] state h = refl
  extract_fields-eq (path ∷ paths) state h =
      same_branch path state (extract_fields env p item paths) (extract_fields env q item paths)
        (λ next. extract_fields-eq paths next h.1) (env.nested_field p (parse_field_path path))
      ∙ ap (branch path state (extract_fields env q item paths)) h.0

  -- If two objects agree on every managed field of an item that has one, they have the same managed
  -- state.
  extract_managed_state-eq :
      (path : String) (paths : List String)
      → item.managed_fields ≡ path ∷ paths
      → All Agree (path ∷ paths)
      → extract_managed_state env p item ≡ extract_managed_state env q item
  unfolding extract_managed_state extract_paths
  extract_managed_state-eq path paths e h =
      ap (extract_paths env p item) e
      ∙ extract_fields-eq (path ∷ paths) end h
      ∙ sym (ap (extract_paths env q item) e)
