-- ===== src/Base/Strings.antt =====
-- Go's strings package on native texts.
use Prim.Native.Char.{code}
use Prim.Native.String.{String}
use mathlib.Core.Bool.{Bool, true, false}
use virt_advisor_operator.Base.Tests.{◌==◌, nat_eq, if◌then◌else◌}

-- `strings.HasPrefix(s, p)`.
unfoldable pub has_prefix : String → String → Bool
has_prefix s String.[] = true
has_prefix String.[] (String.◌∷◌ d p) = false
has_prefix (String.◌∷◌ c s) (String.◌∷◌ d p) =
    let rest = has_prefix s p in if code c == code d then rest else false

-- `strings.Contains(s, p)`.
unfoldable pub contains : String → String → Bool
unfolding has_prefix
contains String.[] p = has_prefix String.[] p
contains (String.◌∷◌ c s) p =
    let rest = contains s p in if has_prefix (String.◌∷◌ c s) p then true else rest
