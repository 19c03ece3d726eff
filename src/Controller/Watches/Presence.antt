-- ===== src/Controller/Watches/Presence.antt =====
-- Advertising with an API server that keeps what it accepts: every profile to advertise gets its
-- VirtPlatformConfig, and advertising again changes nothing.
use virt_advisor_operator.Base.{
  String, Bool, true, false, Option, none, List, [], ◌∷◌, ◌≡◌, ◌≢◌, refl, sym, ap, subst, Memᴰ, ◌⊎◌,
  inl, inr, arith, ◌⊕◌,
}
use virt_advisor_operator.Api.{Advertised}
use virt_advisor_operator.Api.Json.{Value}
use virt_advisor_operator.Kube.{
  Env, State, Call, get, create, GetReply, Outcome, done, fail, Result, ok, err, final, lift,
  on_reply, return, raise, unless_error, get_object, create_object, update_reply, ◌>>=◌,
}
use virt_advisor_operator.Kube.Effects.{IsPreorder, Follows, follow_rules, Follows-bind}
use virt_advisor_operator.Profiles.{Registry, Profile, get_profile}
use virt_advisor_operator.Controller.Watches.Advertised.{
  config_gvk, advertisement, advertisable, create_advertised_profile, advertise,
  initialize_advertised_profiles, should_recreate_advertised_profile,
}
use virt_advisor_operator.Controller.Watches.Loop.{initialize_rest}

-- The API server finds a VirtPlatformConfig of that name.
abbrev pub Known : Env → String → List Call → Type 0
Known env name h = (v : Value) × (env.serve_get h config_gvk name "" ≡ GetReply.found v)

-- An API server that answers, accepts every object, and finds it from then on.
pub record Cooperative (env : Env) : Type 0 where
  pub answers :
      (h : List Call) (name e : String) → env.serve_get h config_gvk name "" ≢ GetReply.failure e
  pub accepts : (h : List Call) (a : Advertised) → env.serve_create h a ≡ none
  pub finds :
      (h : List Call) (a : Advertised)
      → env.serve_create h a ≡ none
      → Known env a.name (create a ∷ h)
  pub keeps : (c : Call) (h : List Call) (name : String) → Known env name h → Known env name (c ∷ h)

module _ (env : Env) (server : Cooperative env) (registry : Registry) where
  -- What is known stays known.
  abbrev pub Keeps : State → State → Type 0
  Keeps s t = (name : String) → Known env name s.history → Known env name t.history

  Keeps-IsPreorder : IsPreorder Keeps
  Keeps-IsPreorder = record { same = λ s name k. k; chain = λ s t u p q name k. q name (p name k) }

  Keeps-get : (name : String) → Follows Keeps (get_object env config_gvk name "")
  unfolding get_object final
  Keeps-get name = record { at = λ s other k. server.keeps _ s.history other k }

  updated : (r : Option String) (s t : State) → Keeps s t → Keeps s (final (update_reply r t))
  unfolding update_reply final
  updated none s t k = k
  updated (Option.some e) s t k = k

  Keeps-create : (a : Advertised) → Follows Keeps (create_object env a)
  unfolding create_object
  Keeps-create a = record { at = λ s. updated _ s _ (λ other k. server.keeps _ s.history other k) }

  Keeps-create_advertised_profile :
      (name : String) → Follows Keeps (create_advertised_profile env registry name)
  unfolding create_advertised_profile
  Keeps-create_advertised_profile name =
      search (follow_rules, Keeps-IsPreorder, Keeps-get, Keeps-create) depth 12

  pub Keeps-advertise : (name : String) → Follows Keeps (advertise env registry name)
  unfolding advertise
  Keeps-advertise name =
      search (follow_rules, Keeps-IsPreorder, Keeps-create_advertised_profile) depth 12

  Keeps-initialize :
      (names : List String) → Follows Keeps (initialize_advertised_profiles env registry names)
  unfolding initialize_advertised_profiles
  Keeps-initialize [] = search (follow_rules, Keeps-IsPreorder)
  Keeps-initialize (name ∷ names) =
      Follows-bind Keeps-IsPreorder _ _ (Keeps-advertise name) (λ u. Keeps-initialize names)

  -- After the Get of createAdvertisedProfile.
  abbrev pub asked : String → State → State
  asked name s = record s { history = get config_gvk name "" ∷ s.history }

  abbrev pub Registered : String → Type 0
  Registered name =
      (p : Profile) × ((get_profile env registry name ≡ ok p) × (p.is_advertisable ≡ true))

  registered_of :
      (r : Result Profile)
      → advertisable r ≡ true
      → (p : Profile) × ((r ≡ ok p) × (p.is_advertisable ≡ true))
  unfolding advertisable
  registered_of (ok p) h = (p, (refl, h))
  registered_of (err e) h = ground arith

  pub enrolled :
      (name : String)
      → should_recreate_advertised_profile env registry name ≡ true
      → Registered name
  unfolding should_recreate_advertised_profile
  enrolled name h = registered_of (get_profile env registry name) h

  -- What is left of an error that is logged.
  abbrev logged : Outcome Bool → Outcome (Unit {0})
  logged o = elim o [ done a t ↦ done tt t | fail e t ↦ done tt t ]

  final-logged : (o : Outcome Bool) → final (logged o) ≡ final o
  unfolding final
  final-logged (done a t) = refl
  final-logged (fail e t) = refl

  pub final-advertise :
      (name : String) (s : State)
      → Registered name
      → final (advertise env registry name s)
        ≡ final (create_advertised_profile env registry name s)
  unfolding advertise unless_error lift return
  final-advertise name s r =
      rw (r.1.0, r.1.1) (final-logged (create_advertised_profile env registry name s))

  pub create_known :
      (name : String) (s : State) (v : Value)
      → Registered name
      → env.serve_get s.history config_gvk name "" ≡ GetReply.found v
      → create_advertised_profile env registry name s ≡ done false (asked name s)
  unfolding create_advertised_profile unless_error lift get_object ◌>>=◌ on_reply return
  create_known name s v r h = rw (r.1.0, h) refl

  create_object-done :
      (a : Advertised) (s : State)
      → create_object env a s ≡ done tt (record s { history = create a ∷ s.history })
  unfolding create_object update_reply
  create_object-done a s =
      ap (λ r. update_reply r (record s { history = create a ∷ s.history }))
        (server.accepts s.history a)

  create_unknown :
      (name : String) (s : State) (e : String) (r : Registered name)
      → env.serve_get s.history config_gvk name "" ≡ GetReply.not_found e
      → create_advertised_profile env registry name s
        ≡ done true (record (asked name s) {
          history = create (advertisement name r.0) ∷ (asked name s).history;
        })
  unfolding create_advertised_profile unless_error lift get_object ◌>>=◌ on_reply return raise
  create_unknown name s e r h =
      rw (r.1.0, h)
        (ap {A = Outcome (Unit {0})}
          (λ o. elim o [
            | done a t ↦ done true t
            | fail e t ↦ fail ("failed to create VirtPlatformConfig: " ⊕ e) t
          ])
          (create_object-done (advertisement name r.0) (asked name s)))

  reply_cases :
      (r : GetReply)
      → ((e : String) → r ≢ GetReply.failure e)
      → ((v : Value) × (r ≡ GetReply.found v)) ⊎ ((e : String) × (r ≡ GetReply.not_found e))
  reply_cases (GetReply.found v) h = inl (v, refl)
  reply_cases (GetReply.not_found e) h = inr (e, refl)
  reply_cases (GetReply.failure e) h = absurd (h e refl)

  created-Known :
      (name : String) (s : State)
      → Registered name
      → Known env name (final (create_advertised_profile env registry name s)).history
  unfolding final
  created-Known name s r =
      elim (reply_cases (env.serve_get s.history config_gvk name "")
        (server.answers s.history name)) [
          | inl (v, h) ↦
              subst (λ o. Known env name (final o).history) (sym (create_known name s v r h))
                (server.keeps _ s.history name (v, h))
          | inr (e, h) ↦
              subst (λ o. Known env name (final o).history) (sym (create_unknown name s e r h))
                (server.finds _ (advertisement name r.0) (server.accepts _ _))
        ]

  -- After advertising with a cooperative API server, it finds a VirtPlatformConfig of the name of
  -- every advertisable profile that was to be advertised.
  pub initialize_advertised_profiles-Known :
      (names : List String) (name : String) (s : State)
      → Memᴰ name names
      → should_recreate_advertised_profile env registry name ≡ true
      → Known env name (final (initialize_advertised_profiles env registry names s)).history
  initialize_advertised_profiles-Known [] name s m h = elim m [ ]
  initialize_advertised_profiles-Known (n ∷ names) name s (Memᴰ.head e) h =
      subst (λ o. Known env name (final o).history) (sym (initialize_rest env registry n names s))
        ((Keeps-initialize names).at (final (advertise env registry n s)) name (
          subst (λ k. Known env name (final (advertise env registry k s)).history) e
            (subst (λ t. Known env name t.history) (sym (final-advertise name s (enrolled name h)))
              (created-Known name s (enrolled name h)))))
  initialize_advertised_profiles-Known (n ∷ names) name s (Memᴰ.tail m) h =
      subst (λ o. Known env name (final o).history) (sym (initialize_rest env registry n names s))
        (initialize_advertised_profiles-Known names name (final (advertise env registry n s)) m h)
