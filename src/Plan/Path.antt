-- ===== src/Plan/Path.antt =====
-- Field paths: parseFieldPath and splitPath of internal/plan/plan.go.
pub mod RoundTrip
use Prim.Native.Char.{code}
use virt_advisor_operator.Base.{
  String, List, [], ◌∷◌, ◌≡◌, refl, ◌==◌, ◌!=◌, if◌then◌else◌, string_eq, nat_eq, ◌⊕◌,
}

-- The loop of splitPath: `current` is the field read so far, `ch` the next character.
split_from : String → String → List String
split_from current String.[] = if current != "" then current ∷ [] else []
split_from current (String.◌∷◌ ch path) =
    let next = split_from "" path in
    let same = split_from (current ⊕ String.◌∷◌ ch String.[]) path in
    if code ch == b'.' then current ∷ next else same

unfoldable pub split_path : String → List String
unfolding split_from
split_path path = split_from "" path

-- The loop of parseFieldPath.
nonempty : List String → List String
nonempty [] = []
nonempty (field ∷ fields) = if field != "" then field ∷ nonempty fields else nonempty fields

unfoldable pub parse_field_path : String → List String
unfolding split_path nonempty
parse_field_path path = if path == "" then [] else nonempty (split_path path)

parsed : parse_field_path "spec.profiles..x." ≡ "spec" ∷ "profiles" ∷ "x" ∷ []
unfolding parse_field_path
parsed = refl
