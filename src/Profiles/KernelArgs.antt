-- ===== src/Profiles/KernelArgs.antt =====
-- Kernel arguments: ParseKernelArg, CheckKernelArg, AddKernelArg and RemoveKernelArg of
-- internal/profiles/profileutils/machineconfig_helpers.go.
pub mod Laws
pub mod Pool
use Prim.Native.Char.{code}
use virt_advisor_operator.Base.{
  String, Bool, true, false, not, Option, none, some, List, [], ◌∷◌, ◌++◌, ◌==◌, if◌then◌else◌,
  string_eq, nat_eq, any, has_prefix, ◌⊕◌, ◌≡◌, refl,
}

-- `strings.SplitN(arg, "=", 2)`: the part before the first `=` and the part after it.
unfoldable pub parse_kernel_arg : String → String × String
parse_kernel_arg String.[] = ("", "")
parse_kernel_arg (String.◌∷◌ ch arg) =
    let rest = parse_kernel_arg arg in
    if code ch == b'=' then ("", arg) else (String.◌∷◌ ch String.[] ⊕ rest.0, rest.1)

-- The loop of CheckKernelArg: `none` while found is false, else lastValue.
unfoldable pub last_value : String → List String → Option String → Option String
last_value key [] last = last
last_value key (arg ∷ args) last =
    last_value key args
      (if (parse_kernel_arg arg).0 == key then some (parse_kernel_arg arg).1 else last)

matches : String → Option String → Bool
matches target none = false
matches target (some last) = last == target

unfoldable pub check_kernel_arg : List String → String → Bool
unfolding matches
check_kernel_arg args arg =
    let target = parse_kernel_arg arg in matches target.1 (last_value target.0 args none)

unfoldable pub add_kernel_arg : List String → String → List String
add_kernel_arg existing arg =
    if any (λ karg. karg == arg) existing then existing else existing ++ arg ∷ []

-- `strings.HasSuffix(arg, "=")`.
unfoldable pub is_prefix : String → Bool
is_prefix String.[] = false
is_prefix (String.◌∷◌ ch String.[]) = code ch == b'='
is_prefix (String.◌∷◌ ch (String.◌∷◌ next arg)) = is_prefix (String.◌∷◌ next arg)

unfoldable pub should_remove : String → String → Bool
unfolding has_prefix
should_remove arg karg = if is_prefix arg then has_prefix karg arg else karg == arg

unfoldable pub remove_kernel_arg : List String → String → List String
remove_kernel_arg [] arg = []
remove_kernel_arg (karg ∷ existing) arg =
    let rest = remove_kernel_arg existing arg in
    if not (should_remove arg karg) then karg ∷ rest else rest

checked :
    (check_kernel_arg ("psi=0" ∷ "psi=1" ∷ []) "psi=1" ≡ true)
    × (check_kernel_arg ("psi=1" ∷ "psi=0" ∷ []) "psi=1" ≡ false)
    × (remove_kernel_arg ("psi=0" ∷ "debug" ∷ "psi=1" ∷ []) "psi=" ≡ "debug" ∷ [])
unfolding check_kernel_arg remove_kernel_arg last_value parse_kernel_arg should_remove is_prefix
checked = (refl, refl, refl)
