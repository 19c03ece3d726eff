-- ===== src/Util/Bounds.antt =====
-- GetNestedInt32 and the bounds of int32.
use mathlib.Core.Path.{Path}
use virt_advisor_operator.Base.{
  String, Bool, true, false, List, ◌≡◌, ◌≢◌, ◌↔◌, sym, ap, subst, ◌∙◌, arith, ◌||◌, Bool-cases,
  if_true, if_false, inl, inr,
}
use virt_advisor_operator.Base.Int.{ℤ, pos, negsuc, ltb_ℤ, int32}
use virt_advisor_operator.Api.Json.{Value}
use virt_advisor_operator.Kube.{Env, Nested, present, absent, invalid}
use virt_advisor_operator.Util.{get_nested_int32, in_int32, with_context, or_default}

abbrev overflows : ℤ → Bool
overflows n = ltb_ℤ (pos 2147483647) n || ltb_ℤ n (negsuc 2147483647)

int32-fits : (n : ℤ) → overflows n ≡ false → int32 n ≡ n
int32-fits (pos n) h = ground arith
int32-fits (negsuc n) h = ground arith

int32-overflows : (n : ℤ) → overflows n ≡ true → int32 n ≢ n
int32-overflows (pos n) h e = ground arith
int32-overflows (negsuc n) h e = ground arith

present_inj : (a b : ℤ) → Path (Nested ℤ) (present a) (present b) → a ≡ b
unfolding or_default
present_inj a b e = ap (or_default a) e

not_present : (x : String) (n : ℤ) → Path (Nested ℤ) (invalid x) (present n) → ⊥
not_present x n e = ground arith

module _ (env : Env) (object : Value) (fields : List String) where
  sound :
      (r : Nested ℤ) (n : ℤ)
      → in_int32 env object fields (with_context "int32" fields r) ≡ present n
      → (r ≡ present n) × (int32 n ≡ n)
  unfolding in_int32 with_context
  sound (present m) n e = elim (Bool-cases (overflows m)) [
    | inl o ↦ absurd (not_present _ n (sym (if_true _ _ o) ∙ e))
    | inr o ↦
        let same = int32-fits m o in
        let q = sym same ∙ present_inj (int32 m) n (sym (if_false _ _ o) ∙ e) in
        (ap present q, subst (λ k. int32 k ≡ k) q same)
  ]
  sound absent n e = ground arith
  sound (invalid x) n e = ground arith

  complete :
      (r : Nested ℤ) (n : ℤ)
      → r ≡ present n
      → int32 n ≡ n
      → in_int32 env object fields (with_context "int32" fields r) ≡ present n
  unfolding in_int32 with_context
  complete r n e f = rw e (elim (Bool-cases (overflows n)) [
    | inl o ↦ absurd (int32-overflows n o f)
    | inr o ↦ if_false _ _ o ∙ ap present f
  ])

  -- GetNestedInt32 returns a number exactly if that number is stored under the path and is one of
  -- the 2^32 that the conversion to int32 leaves as they are.
  pub get_nested_int32_iff :
      (n : ℤ)
      → (get_nested_int32 env object fields ≡ present n)
        ↔ ((env.nested_int64 object fields ≡ present n) × (int32 n ≡ n))
  unfolding get_nested_int32
  get_nested_int32_iff n = (sound _ n, (λ h. complete _ n h.0 h.1))
