-- ===== src/Controller/Watches/Again.antt =====
-- Advertising twice is advertising once.
use virt_advisor_operator.Base.{
  String, true, false, not, List, [], ◌∷◌, ◌≡◌, refl, ap, ◌∙◌, Memᴰ, Bool-cases, inl, inr,
  if◌then◌else◌,
}
use virt_advisor_operator.Kube.{
  Env, State, Outcome, done, M, Result, ok, err, final, lift, return, unless_error,
}
use virt_advisor_operator.Profiles.{Registry, Profile, get_profile}
use virt_advisor_operator.Controller.Watches.Advertised.{
  advertisable, advertise, initialize_advertised_profiles, should_recreate_advertised_profile,
}
use virt_advisor_operator.Controller.Watches.Creation.{created}
use virt_advisor_operator.Controller.Watches.Loop.{initialize_rest}
use virt_advisor_operator.Controller.Watches.Presence.{
  Cooperative, Known, enrolled, final-advertise, create_known, Keeps-advertise,
  initialize_advertised_profiles-Known,
}

skipped :
    (r : Result Profile) (make : Profile → M (Unit {0})) (s : State)
    → advertisable r ≡ false
    → unless_error
        (lift r)
        (λ _. return tt)
        (λ p. if not p.is_advertisable then return tt else make p)
        s
      ≡ done tt s
unfolding advertisable unless_error lift return
skipped (ok p) make s h = rw h refl
skipped (err e) make s h = refl

module _ (env : Env) (server : Cooperative env) (registry : Registry) where
  unchanged :
      (name : String) (s : State)
      → (should_recreate_advertised_profile env registry name ≡ true → Known env name s.history)
      → created (final (advertise env registry name s)).history ≡ created s.history
  unfolding should_recreate_advertised_profile advertise final
  unchanged name s known =
      elim (Bool-cases (should_recreate_advertised_profile env registry name)) [
        | inl e ↦
            let r = enrolled env server registry name e in
            let k = known e in
            ap (λ t. created t.history) (final-advertise env server registry name s r)
            ∙ ap (λ o. created (final o).history)
                (create_known env server registry name s k.0 r k.1)
        | inr e ↦
            ap {A = Outcome (Unit {0})} (λ o. created (final o).history)
              (skipped (get_profile env registry name) _ s e)
      ]

  unchanged_all :
      (names : List String) (s : State)
      → ((name : String)
          → Memᴰ name names
          → should_recreate_advertised_profile env registry name ≡ true
          → Known env name s.history)
      → created (final (initialize_advertised_profiles env registry names s)).history
        ≡ created s.history
  unfolding initialize_advertised_profiles return final
  unchanged_all [] s known = refl
  unchanged_all (n ∷ names) s known =
      ap (λ o. created (final o).history) (initialize_rest env registry n names s)
      ∙ (unchanged_all names (final (advertise env registry n s)) (λ name m h.
            (Keeps-advertise env server registry n).at s name (known name (Memᴰ.tail m) h))
          ∙ unchanged n s (λ h. known n (Memᴰ.head refl) h))

  -- With a cooperative API server, advertising the same profiles a second time creates no object.
  pub initialize_advertised_profiles-again :
      (names : List String) (s : State)
      → let t = final (initialize_advertised_profiles env registry names s) in
        created (final (initialize_advertised_profiles env registry names t)).history
        ≡ created t.history
  initialize_advertised_profiles-again names s =
      unchanged_all names (final (initialize_advertised_profiles env registry names s))
        (λ name m h. initialize_advertised_profiles-Known env server registry names name s m h)
