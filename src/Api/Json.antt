-- ===== src/Api/Json.antt =====
-- `map[string]interface{}` and what it holds: the content of an `unstructured.Unstructured`.
use virt_advisor_operator.Base.{String, Bool, List, [], ◌∷◌}
use virt_advisor_operator.Base.Int.{ℤ}

-- `float` holds the text of a number that is no integer.
mutual
  pub data Value : Type 0 where
    null : Value
    bool : Bool → Value
    int : ℤ → Value
    float : String → Value
    str : String → Value
    arr : Elements → Value
    obj : Fields → Value

  pub data Elements : Type 0 where
    nil : Elements
    cons : Value → Elements → Elements

  pub data Fields : Type 0 where
    end : Fields
    field : String → Value → Fields → Fields

-- A slice as an array.
abbrev pub elements : List Value → Elements
elements [] = nil
elements (v ∷ vs) = cons v (elements vs)

-- `apiextensionsv1.JSONSchemaProps`, of which the code reads the properties; a nil map is `unset`.
mutual
  pub data Schema : Type 0 where
    schema : Properties → Schema

  pub data Properties : Type 0 where
    unset : Properties
    last : Properties
    property : String → Schema → Properties → Properties
