-- ===== src/Controller/Watches/Creation.antt =====
-- What advertising a profile creates, and when.
use virt_advisor_operator.Base.{
  String, Bool, true, false, not, Option, none, some, List, [], ◌∷◌, ◌++◌, ◌≡◌, refl, ap, ◌∙◌, All,
  ◌⊕◌,
}
use virt_advisor_operator.Api.{Advertised, PlanAction}
use virt_advisor_operator.Kube.{
  Env, State, Call, get, patch, update, create, GetReply, M, final, on_reply, return, raise,
  unless_error, get_object, create_object, update_reply, ◌>>=◌,
}
use virt_advisor_operator.Kube.Applied.{applied}
use virt_advisor_operator.Kube.Effects.{
  IsPreorder, Follows, Follows-bind, Follows-unless_error, Follows-return, Follows-raise,
  Follows-if, Follows-lift,
}
use virt_advisor_operator.Profiles.{Registry, Profile, get_profile}
use virt_advisor_operator.Controller.Watches.Advertised.{
  config_gvk, advertisement, create_advertised_profile, advertise, initialize_advertised_profiles,
}

-- The objects that were sent to be created.
abbrev pub created : List Call → List Advertised
created [] = []
created (get _ _ _ ∷ h) = created h
created (patch _ _ ∷ h) = created h
created (update _ ∷ h) = created h
created (create a ∷ h) = a ∷ created h

module _ (env : Env) where
  -- An object that manages nothing, for which the API server knew of none.
  abbrev pub Harmless : Advertised → Type 0
  Harmless a =
      (a.action ≡ PlanAction.ignore)
      × ((a.profile ≡ a.name)
          × ((h : List Call) × ((e : String) × (env.serve_get h config_gvk a.name ""
                  ≡ GetReply.not_found e))))

  -- Nothing but harmless objects were created.
  pub record Advertises (s t : State) : Type 0 where
    pub plan : t.plan ≡ s.plan
    pub objects : applied t.history ≡ applied s.history
    pub new : List Advertised
    pub grown : created t.history ≡ new ++ created s.history
    pub harmless : All Harmless new

  append_assoc : (a b c : List Advertised) → a ++ (b ++ c) ≡ (a ++ b) ++ c
  append_assoc [] b c = refl
  append_assoc (x ∷ a) b c = ap (λ l. x ∷ l) (append_assoc a b c)

  append-Harmless :
      (a b : List Advertised) → All Harmless a → All Harmless b → All Harmless (a ++ b)
  append-Harmless [] b h k = k
  append-Harmless (x ∷ a) b h k = (h.0, append-Harmless a b h.1 k)

  pub Advertises-IsPreorder : IsPreorder Advertises
  Advertises-IsPreorder = record {
    same = λ s. record { plan = refl; objects = refl; new = []; grown = refl; harmless = tt };
    chain = λ s t u p q. record {
      plan = q.plan ∙ p.plan;
      objects = q.objects ∙ p.objects;
      new = q.new ++ p.new;
      grown = q.grown ∙ (ap (λ l. q.new ++ l) p.grown ∙ append_assoc q.new p.new _);
      harmless = append-Harmless q.new p.new q.harmless p.harmless;
    };
  }

  -- A call that only reads.
  pub seen :
      (s : State) (c : Call)
      → created (c ∷ s.history) ≡ created s.history
      → applied (c ∷ s.history) ≡ applied s.history
      → Advertises s (record s { history = c ∷ s.history })
  seen s c h k = record { plan = refl; objects = k; new = []; grown = h; harmless = tt }

  updated :
      (r : Option String) (s t : State) → Advertises s t → Advertises s (final (update_reply r t))
  unfolding update_reply final
  updated none s t h = h
  updated (some e) s t h = h

  made : (a : Advertised) (s : State) → Harmless a → Advertises s (final (create_object env a s))
  unfolding create_object
  made a s h =
      updated _ s _
        (record { plan = refl; objects = refl; new = a ∷ []; grown = refl; harmless = (h, tt) })

  module _ (name : String) (profile : Profile) where
    abbrev asked : State → State
    asked s = record s { history = get config_gvk name "" ∷ s.history }

    -- What createAdvertisedProfile does when there is no object of that name.
    abbrev creation : M Bool
    creation =
        unless_error (create_object env (advertisement name profile))
          (λ e. raise ("failed to create VirtPlatformConfig: " ⊕ e)) (λ _. return true)

    Follows-creation : Harmless (advertisement name profile) → Follows Advertises creation
    Follows-creation h =
        Follows-unless_error Advertises-IsPreorder _ _ _
          (record { at = λ s. made (advertisement name profile) s h })
          (λ e. Follows-raise Advertises-IsPreorder _)
          (λ u. Follows-return Advertises-IsPreorder true)

    replied :
        (s : State) (r : GetReply)
        → env.serve_get s.history config_gvk name "" ≡ r
        → Follows Advertises (
            on_reply r
              (λ _. return false)
              (λ _. creation)
              (λ e. raise ("failed to check for existing VirtPlatformConfig: " ⊕ e)))
    unfolding on_reply
    replied s (GetReply.found v) h = Follows-return Advertises-IsPreorder false
    replied s (GetReply.not_found e) h = Follows-creation (refl, (refl, (s.history, (e, h))))
    replied s (GetReply.failure e) h = Follows-raise Advertises-IsPreorder _

    looked_up : Follows Advertises (
        get_object env config_gvk name "" >>= λ reply.
        on_reply reply
          (λ _. return false)
          (λ _. creation)
          (λ e. raise ("failed to check for existing VirtPlatformConfig: " ⊕ e)))
    unfolding get_object ◌>>=◌
    looked_up = record {
      at = λ s.
          Advertises-IsPreorder.chain s (asked s) _ (seen s _ refl refl)
            ((replied s _ refl).at (asked s));
    }

  module _ (registry : Registry) where
    pub Follows-create_advertised_profile :
        (name : String) → Follows Advertises (create_advertised_profile env registry name)
    unfolding create_advertised_profile
    Follows-create_advertised_profile name =
        Follows-unless_error Advertises-IsPreorder _ _ _
          (Follows-lift Advertises-IsPreorder (get_profile env registry name))
          (λ e. Follows-raise Advertises-IsPreorder _) (λ profile. looked_up name profile)

    Follows-advertise : (name : String) → Follows Advertises (advertise env registry name)
    unfolding advertise
    Follows-advertise name =
        Follows-unless_error Advertises-IsPreorder _ _ _
          (Follows-lift Advertises-IsPreorder (get_profile env registry name))
          (λ e. Follows-return Advertises-IsPreorder tt)
          (λ profile.
            Follows-if (not profile.is_advertisable) _ _ (Follows-return Advertises-IsPreorder tt) (
              Follows-unless_error Advertises-IsPreorder _ _ _
                (Follows-create_advertised_profile name)
                (λ e. Follows-return Advertises-IsPreorder tt)
                (λ b. Follows-return Advertises-IsPreorder tt)))

    Follows-initialize :
        (names : List String)
        → Follows Advertises (initialize_advertised_profiles env registry names)
    unfolding initialize_advertised_profiles
    Follows-initialize [] = Follows-return Advertises-IsPreorder tt
    Follows-initialize (name ∷ names) =
        Follows-bind Advertises-IsPreorder _ _ (Follows-advertise name)
          (λ u. Follows-initialize names)

    -- Whatever the registry and the API server, advertising profiles applies no object and creates
    -- none but VirtPlatformConfigs with action Ignore, each named for its profile and for a name
    -- under which the API server had just found no object.
    pub initialize_advertised_profiles-Advertises :
        (names : List String) (s : State)
        → Advertises s (final (initialize_advertised_profiles env registry names s))
    initialize_advertised_profiles-Advertises names s = (Follows-initialize names).at s
