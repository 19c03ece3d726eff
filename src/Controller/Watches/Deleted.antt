-- ===== src/Controller/Watches/Deleted.antt =====
-- Reconcile of a VirtPlatformConfig that is not there.
use virt_advisor_operator.Base.{
  String, Bool, true, false, Option, none, some, ◌≡◌, ◌⊎◌, inl, inr, refl, sym, ap, subst, ◌∙◌, ◌∷◌,
  Bool-cases, ◌⊕◌,
}
use virt_advisor_operator.Kube.{
  Env, State, GetReply, Result, ok, err, M, Outcome, done, fail, final, get_object, create_object,
  update_reply, on_reply, unless_error, lift, return, raise, ◌>>=◌, get,
}
use virt_advisor_operator.Kube.Effects.{Follows, Follows-unless_error, Follows-return, Follows-if}
use virt_advisor_operator.Kube.Returns.{
  Returns, Returns-return, Returns-if, Returns-any, Returns-unless_error, done_holds,
}
use virt_advisor_operator.Profiles.{Registry, Profile, get_profile}
use virt_advisor_operator.Controller.Reconcile.{Requeue, no_requeue}
use virt_advisor_operator.Controller.Watches.Advertised.{
  config_gvk, advertisement, advertisable, create_advertised_profile, recreate, reconcile_request,
  should_recreate_advertised_profile,
}
use virt_advisor_operator.Controller.Watches.Creation.{
  created, Advertises, Advertises-IsPreorder, Follows-create_advertised_profile, seen,
}

module _ (env : Env) (registry : Registry) (name : String) where
  -- At most one object was created: the advertisement of the profile of that name, which is one to
  -- advertise.
  abbrev pub Recreates : State → State → Type 0
  Recreates s t =
      (created t.history ≡ created s.history)
      ⊎ ((p : Profile) × ((get_profile env registry name ≡ ok p)
            × ((p.is_advertisable ≡ true)
                × (created t.history ≡ advertisement name p ∷ created s.history))))

  -- The same of createAdvertisedProfile, for what the registry returned.
  abbrev Creates : Result Profile → State → State → Type 0
  Creates r s t =
      (created t.history ≡ created s.history)
      ⊎ ((p : Profile) × ((r ≡ ok p)
            × (created t.history ≡ advertisement name p ∷ created s.history)))

  creation : Profile → M Bool
  creation p =
      unless_error (create_object env (advertisement name p))
        (λ e. raise ("failed to create VirtPlatformConfig: " ⊕ e)) (λ _. return true)

  accepted :
      (r : Option String) (t : State)
      → created
          (final (
            unless_error
              (update_reply r)
              (λ e. raise {A = Bool} ("failed to create VirtPlatformConfig: " ⊕ e))
              (λ _. return true)
              t)).history
        ≡ created t.history
  unfolding unless_error update_reply raise return final
  accepted none t = refl
  accepted (some e) t = refl

  on_answer :
      (reply : GetReply) (p : Profile) (s : State)
      → Creates (ok p) s (
          final (
            on_reply reply
              (λ _. return false)
              (λ _. creation p)
              (λ e. raise ("failed to check for existing VirtPlatformConfig: " ⊕ e))
              s))
  unfolding on_reply raise return final creation unless_error create_object
  on_answer (GetReply.found v) p s = inl refl
  on_answer (GetReply.not_found e) p s = inr (p, (refl, accepted _ _))
  on_answer (GetReply.failure e) p s = inl refl

  with_profile :
      (r : Result Profile) (s : State)
      → Creates r s (
          final (
            unless_error
              (lift r)
              (λ e. raise ("profile not found in registry: " ⊕ e))
              (λ p. get_object env config_gvk name "" >>= λ reply.
                on_reply reply
                  (λ _. return false)
                  (λ _. creation p)
                  (λ e. raise ("failed to check for existing VirtPlatformConfig: " ⊕ e)))
              s))
  unfolding unless_error lift raise final get_object ◌>>=◌
  with_profile (err e) s = inl refl
  with_profile (ok p) s = on_answer _ p (record s { history = get config_gvk name "" ∷ s.history })

  swallowed :
      (o : Outcome Bool)
      → final {A = Requeue} (elim o [ done b t ↦ done no_requeue t | fail e t ↦ done no_requeue t ])
        ≡ final o
  unfolding final
  swallowed (done b t) = refl
  swallowed (fail e t) = refl

  is_advertised :
      (r : Result Profile) (s t : State)
      → advertisable r ≡ true
      → Creates r s t
      → (created t.history ≡ created s.history)
        ⊎ ((p : Profile) × ((r ≡ ok p)
              × ((p.is_advertisable ≡ true)
                  × (created t.history ≡ advertisement name p ∷ created s.history))))
  unfolding advertisable
  is_advertised r s t h (inl e) = inl e
  is_advertised r s t h (inr c) = inr (c.0, (c.1.0, (ap advertisable (sym c.1.0) ∙ h, c.1.1)))

  create-Creates :
      (s : State)
      → Creates
          (get_profile env registry name)
          s
          (final (create_advertised_profile env registry name s))
  unfolding create_advertised_profile creation
  create-Creates s = with_profile (get_profile env registry name) s

  recreate-Recreates : (s : State) → Recreates s (final (recreate env registry name s))
  unfolding recreate should_recreate_advertised_profile return unless_error final
  recreate-Recreates s = elim (Bool-cases (advertisable (get_profile env registry name))) [
    | inl h ↦ rw h (
        subst (Recreates s) (sym (swallowed (create_advertised_profile env registry name s))) (
          is_advertised (get_profile env registry name) s
            (final (create_advertised_profile env registry name s)) h (create-Creates s)))
    | inr h ↦ rw h (inl refl)
  ]

  Follows-recreate : Follows (Advertises env) (recreate env registry name)
  unfolding recreate
  Follows-recreate =
      Follows-if _ _ _
        (Follows-unless_error (Advertises-IsPreorder env) _ _ _
          (Follows-create_advertised_profile env registry name)
          (λ e. Follows-return (Advertises-IsPreorder env) no_requeue)
          (λ b. Follows-return (Advertises-IsPreorder env) no_requeue))
        (Follows-return (Advertises-IsPreorder env) no_requeue)

  Returns-recreate : Returns (λ e. ⊥) (λ r. r ≡ no_requeue) (recreate env registry name)
  unfolding recreate
  Returns-recreate =
      Returns-if (should_recreate_advertised_profile env registry name) _ _
        (λ _.
          Returns-unless_error _ _ _ (Returns-any _) (λ e u. Returns-return no_requeue refl)
            (λ b u. Returns-return no_requeue refl))
        (λ _. Returns-return no_requeue refl)

  -- A reconciliation of a VirtPlatformConfig that the API server does not find ends without an
  -- error and asks for no requeue. It applies no object, and creates none, or one: the advertisement of
  -- the profile that is registered under that name, which is one to advertise, with action Ignore and
  -- for a name that is not taken.
  pub reconcile_request-not_found :
      (s : State) (e : String)
      → env.serve_get s.history config_gvk name "" ≡ GetReply.not_found e
      → let t = final (reconcile_request env registry name s) in
        (reconcile_request env registry name s ≡ done no_requeue t)
        × Recreates s t
        × Advertises env s t
  unfolding reconcile_request get_object ◌>>=◌ on_reply
  reconcile_request-not_found s e h =
      let asked = record s { history = get config_gvk name "" ∷ s.history } in
      rw h (
        done_holds no_requeue _ (Returns-recreate.at asked),
        recreate-Recreates asked,
        (Advertises-IsPreorder env).chain s asked _ (seen env s _ refl refl)
            (Follows-recreate.at asked),
      )
