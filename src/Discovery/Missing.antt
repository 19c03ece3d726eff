-- ===== src/Discovery/Missing.antt =====
-- What CheckPrerequisites reports of a cluster whose CRDs do not change in the meantime.
use virt_advisor_operator.Base.{
  String, Bool, true, false, not, List, [], ◌∷◌, ◌≡◌, refl, sym, ◌∙◌, any, if◌then◌else◌, if_true,
  if_false,
}
use virt_advisor_operator.Kube.{Env, GetReply, not_found, failure, Call, get_object}
use virt_advisor_operator.Kube.Returns.{
  Returns, Returns-return, Returns-raise, Returns-on_reply, Returns-unless_error, Returns-bind,
  Returns-weaken,
}
use virt_advisor_operator.Discovery.{
  Prerequisite, crd_gvk, gvk_to_crd_name, crd_exists, check_prerequisites,
}

-- The answer to a `Get` of a CRD does not depend on the calls before it.
abbrev pub Steady : Env → (String → GetReply) → Type 0
Steady env answer = (h : List Call) (name : String) → env.serve_get h crd_gvk name "" ≡ answer name

abbrev pub is_absent : GetReply → Bool
is_absent (not_found e) = true
is_absent _ = false

abbrev pub is_failure : GetReply → Bool
is_failure (failure e) = true
is_failure _ = false

module _ (answer : String → GetReply) where
  abbrev pub answer_for : Prerequisite → GetReply
  answer_for p = answer (gvk_to_crd_name p.gvk)

  -- The prerequisites whose CRD is not found, in their order.
  abbrev pub absent_ones : List Prerequisite → List Prerequisite
  absent_ones [] = []
  absent_ones (p ∷ ps) =
      let rest = absent_ones ps in if is_absent (answer_for p) then p ∷ rest else rest

  abbrev pub any_failure : List Prerequisite → Bool
  any_failure = any (λ p. is_failure (answer_for p))

kept :
    (p : Prerequisite) (ms l : List Prerequisite) (b a : Bool)
    → b ≡ not a
    → ms ≡ l
    → (if b then ms else p ∷ ms) ≡ (if a then p ∷ l else l)
kept p ms l b true e q = rw (e, q) refl
kept p ms l b false e q = rw (e, q) refl

module _ (env : Env) (answer : String → GetReply) (steady : Steady env answer) where
  Returns-crd_exists :
      (name : String)
      → Returns
          (λ e. is_failure (answer name) ≡ true)
          (λ b. (is_failure (answer name) ≡ false) × (b ≡ not (is_absent (answer name))))
          (crd_exists env name)
  unfolding crd_exists get_object
  Returns-crd_exists name =
      Returns-bind {Q = λ r. r ≡ answer name} _ _ (record { at = λ s. steady s.history name })
        λ reply e.
          Returns-on_reply reply _ _ _ (λ v h. Returns-return true (rw (sym e ∙ h) (refl, refl)))
            (λ x h. Returns-return false (rw (sym e ∙ h) (refl, refl)))
            (λ x h. Returns-raise x (rw (sym e ∙ h) refl))

  -- In a cluster whose CRDs do not change in the meantime, CheckPrerequisites returns an error exactly
  -- if the API server cannot tell of some CRD, and else the prerequisites whose CRD is not found, in
  -- their order.
  pub check_prerequisites-absent :
      (ps : List Prerequisite)
      → Returns
          (λ e. any_failure answer ps ≡ true)
          (λ missing. (any_failure answer ps ≡ false) × (missing ≡ absent_ones answer ps))
          (check_prerequisites env ps)
  unfolding check_prerequisites
  check_prerequisites-absent [] = Returns-return [] (refl, refl)
  check_prerequisites-absent (p ∷ ps) =
      Returns-unless_error _ _ _ (Returns-crd_exists (gvk_to_crd_name p.gvk))
        (λ e h. Returns-raise _ (if_true _ _ h))
        λ exists h.
          Returns-bind _ _
            (Returns-weaken _ (check_prerequisites-absent ps) (λ e k. if_false _ _ h.0 ∙ k)
              (λ missing k. k))
            (λ missing k.
              Returns-return _ (if_false _ _ h.0 ∙ k.0, kept p missing _ exists _ h.1 k.1))
