-- ===== src/Profiles/KernelArgs/Laws.antt =====
-- What the last occurrence of a kernel argument makes of additions.
use virt_advisor_operator.Base.{
  String, Bool, true, not, Option, none, some, List, [], ◌∷◌, ◌++◌, ◌==◌, ◌≡◌, refl, ◌||◌,
  string_eq, any, arith, Bool-cases, inl, inr, ◌&&◌,
}
use virt_advisor_operator.Profiles.KernelArgs.{
  parse_kernel_arg, last_value, check_kernel_arg, add_kernel_arg, remove_kernel_arg, should_remove,
}

last_value-append :
    (key : String) (args : List String) (arg : String) (last : Option String)
    → (parse_kernel_arg arg).0 ≡ key
    → last_value key (args ++ arg ∷ []) last ≡ some (parse_kernel_arg arg).1
unfolding last_value
last_value-append key [] arg last h =
    ground (arith, string_eq.equal_iff (parse_kernel_arg arg).0 key)
last_value-append key (a ∷ args) arg last h = last_value-append key args arg _ h

check-append : (args : List String) (arg : String) → check_kernel_arg (args ++ arg ∷ []) arg ≡ true
unfolding check_kernel_arg
check-append args arg =
    rw (last_value-append (parse_kernel_arg arg).0 args arg none refl)
      ((string_eq.equal_iff (parse_kernel_arg arg).1 (parse_kernel_arg arg).1).1 refl)

-- After AddKernelArg an argument is in effect, unless it stood in the list already and was not in
-- effect there: then it stays out of effect, since another value of its key comes later.
pub check-add :
    (existing : List String) (arg : String)
    → check_kernel_arg (add_kernel_arg existing arg) arg
      ≡ (not (any (λ karg. karg == arg) existing) || check_kernel_arg existing arg)
unfolding add_kernel_arg
check-add existing arg = elim (Bool-cases (any (λ karg. karg == arg) existing)) [
  | inl e ↦ rw e refl
  | inr e ↦ rw (e, check-append existing arg) refl
]

-- RemoveKernelArg leaves none of the arguments that it is to remove, and every other one that was
-- there.
remove-any :
    (p : String → Bool) (existing : List String) (arg : String)
    → any p (remove_kernel_arg existing arg)
      ≡ any (λ karg. p karg && not (should_remove arg karg)) existing
unfolding remove_kernel_arg
remove-any p [] arg = refl
remove-any p (a ∷ existing) arg = ground (arith, remove-any p existing arg)
