-- ===== src/Controller/Watches/Loop.antt =====
-- The loop of initializeAdvertisedProfiles meets no error that stops it.
use virt_advisor_operator.Base.{String, not, List, [], ◌∷◌, ◌≡◌, refl, ap}
use virt_advisor_operator.Kube.{Env, State, Outcome, done, fail, final, ◌>>=◌}
use virt_advisor_operator.Kube.Returns.{
  Returns, Returns-return, Returns-if, Returns-lift, Returns-any, Returns-bind,
  Returns-unless_error, done_holds,
}
use virt_advisor_operator.Profiles.{Registry, get_profile}
use virt_advisor_operator.Controller.Watches.Advertised.{advertise, initialize_advertised_profiles}

module _ (env : Env) (registry : Registry) where
  Returns-advertise : (name : String) → Returns (λ e. ⊥) (λ u. u ≡ tt) (advertise env registry name)
  unfolding advertise
  Returns-advertise name =
      Returns-unless_error _ _ _ (Returns-lift (get_profile env registry name))
        (λ e u. Returns-return tt refl)
        λ p u.
          Returns-if (not p.is_advertisable) _ _ (λ _. Returns-return tt refl)
            λ _.
              Returns-unless_error _ _ _ (Returns-any _) (λ e u. Returns-return tt refl)
                (λ b u. Returns-return tt refl)

  -- The loop goes on whatever its body meets.
  pub initialize_rest :
      (n : String) (names : List String) (s : State)
      → initialize_advertised_profiles env registry (n ∷ names) s
        ≡ initialize_advertised_profiles env registry names (final (advertise env registry n s))
  unfolding initialize_advertised_profiles ◌>>=◌
  initialize_rest n names s =
      ap {A = Outcome (Unit {0})}
        (λ o. elim o [
          | done a t ↦ initialize_advertised_profiles env registry names t
          | fail e t ↦ fail e t
        ])
        (done_holds tt (advertise env registry n s) ((Returns-advertise n).at s))

  pub Returns-initialize :
      (names : List String)
      → Returns (λ e. ⊥) (λ u. Unit {0}) (initialize_advertised_profiles env registry names)
  unfolding initialize_advertised_profiles
  Returns-initialize [] = Returns-return tt tt
  Returns-initialize (n ∷ names) =
      Returns-bind _ _ (Returns-advertise n) (λ u h. Returns-initialize names)
