-- ===== src/Controller/Watches/Requests.antt =====
-- What a handler enqueues that takes each VirtPlatformConfig at most once.
use virt_advisor_operator.Base.{
  String, Bool, true, List, [], ◌∷◌, map, ◌≡◌, refl, sym, ap, subst, ◌∙◌, inl, inr, Memᴰ, Distinct,
  Bool-cases, if_true, if_false, string_eq,
}
use mathlib.Core.List.Memᴰ.{cases_cons}
use virt_advisor_operator.Api.{Config, state_eq}
use virt_advisor_operator.Controller.Watches.{requests_for}

module _ (test : Config → Bool) where
  -- A VirtPlatformConfig of that name passes the test.
  abbrev pub Passing : String → List Config → Type 0
  Passing n configs = (c : Config) × (Memᴰ c configs × ((c.name ≡ n) × (test c ≡ true)))

  later :
      (n : String) (d : Config) (configs : List Config)
      → Passing n configs
      → Passing n (d ∷ configs)
  later n d configs p = (p.0, (Memᴰ.tail p.1.0, p.1.1))

  pub requests_for_sound :
      (n : String) (configs : List Config) → Memᴰ n (requests_for test configs) → Passing n configs
  unfolding requests_for
  requests_for_sound n [] m = elim m [ ]
  requests_for_sound n (d ∷ configs) m = elim (Bool-cases (test d)) [
    | inl e ↦ (elim (cases_cons (subst (Memᴰ n) (if_true _ _ e) m)) [
      | inl h ↦ (d, (Memᴰ.head refl, (sym h, e)))
      | inr k ↦ later n d configs (requests_for_sound n configs k)
    ])
    | inr e ↦ later n d configs (requests_for_sound n configs (subst (Memᴰ n) (if_false _ _ e) m))
  ]

  pub requests_for_complete :
      (configs : List Config) (c : Config)
      → Memᴰ c configs
      → test c ≡ true
      → Memᴰ c.name (requests_for test configs)
  unfolding requests_for
  requests_for_complete [] c m h = elim m [ ]
  requests_for_complete (d ∷ configs) c (Memᴰ.head e) h =
      subst (Memᴰ c.name) (sym (if_true _ _ (ap test (sym e) ∙ h))) (Memᴰ.head (ap (λ x. x.name) e))
  requests_for_complete (d ∷ configs) c (Memᴰ.tail m) h =
      let rest = requests_for_complete configs c m h in
      elim (Bool-cases (test d)) [
        | inl e ↦ subst (Memᴰ c.name) (sym (if_true _ _ e)) (Memᴰ.tail rest)
        | inr e ↦ subst (Memᴰ c.name) (sym (if_false _ _ e)) rest
      ]

  named :
      (n : String) (configs : List Config) → Passing n configs → Memᴰ n (map (λ c. c.name) configs)
  named n [] p = elim p.1.0 [ ]
  named n (d ∷ configs) (c, (Memᴰ.head e, h)) = Memᴰ.head (sym h.0 ∙ ap (λ x. x.name) e)
  named n (d ∷ configs) (c, (Memᴰ.tail m, h)) = Memᴰ.tail (named n configs (c, (m, h)))

  pub requests_for-Distinct :
      (configs : List Config)
      → Distinct (map (λ c. c.name) configs)
      → Distinct (requests_for test configs)
  unfolding requests_for
  requests_for-Distinct [] h = tt
  requests_for-Distinct (d ∷ configs) h = elim (Bool-cases (test d)) [
    | inl e ↦ subst Distinct (sym (if_true _ _ e)) (
      (λ m. h.0 (named d.name configs (requests_for_sound d.name configs m))),
      requests_for-Distinct configs h.1,
    )
    | inr e ↦ subst Distinct (sym (if_false _ _ e)) (requests_for-Distinct configs h.1)
  ]
