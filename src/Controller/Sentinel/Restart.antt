-- ===== src/Controller/Sentinel/Restart.antt =====
-- When the sentinel restarts the operator.
use virt_advisor_operator.Base.{
  String, Bool, true, false, some, List, [], ◌∷◌, ◌≡◌, ◌≢◌, ◌⊎◌, ◌↔◌, refl, sym, ap, subst, ◌∙◌,
  inl, inr, arith, Memᴰ, Bool-cases, if_true, if_false, any, ◌==◌, string_eq, All, if◌then◌else◌,
}
use virt_advisor_operator.Api.Json.{Value}
use virt_advisor_operator.Kube.{
  Env, State, Call, GetReply, done, M, return, on_reply, get_object, get, ◌>>=◌,
}
use virt_advisor_operator.Kube.Faults.{Returns-get_object}
use virt_advisor_operator.Kube.Returns.{
  Returns, Holds, Returns-return, Returns-raise, Returns-lift, Returns-bind, Returns-unless_error,
  Returns-on_reply,
}
use virt_advisor_operator.Discovery.{
  Prerequisite, check_prerequisites, crd_exists, gvk_to_crd_name, crd_gvk,
}
use virt_advisor_operator.Profiles.{Registry, get_profile}
use virt_advisor_operator.Controller.Sentinel.{
  Sentinel, made, mark_crd_missing, is_missing, End, returned, exited, reconcile_crd, mark_all,
  mark_profiles, start_sentinel,
}

any_sound : (name : String) (l : List String) → any (λ crd. crd == name) l ≡ true → Memᴰ name l
any_sound name [] h = ground arith
any_sound name (x ∷ l) h = elim (Bool-cases (x == name)) [
  | inl e ↦ Memᴰ.head (sym ((string_eq.equal_iff x name).0 e))
  | inr e ↦ Memᴰ.tail (any_sound name l (sym (if_false _ _ e) ∙ h))
]

any_complete : (name : String) (l : List String) → Memᴰ name l → any (λ crd. crd == name) l ≡ true
any_complete name [] m = elim m [ ]
any_complete name (x ∷ l) (Memᴰ.head e) = if_true _ _ ((string_eq.equal_iff x name).1 (sym e))
any_complete name (x ∷ l) (Memᴰ.tail m) = elim (Bool-cases (x == name)) [
  | inl e ↦ if_true _ _ e
  | inr e ↦ if_false _ _ e ∙ any_complete name l m
]

module _ (env : Env) where
  -- The API server had no CRD of that name, at some time.
  abbrev pub WasMissing : String → Type 0
  WasMissing name =
      (h : List Call) × ((e : String) × (env.serve_get h crd_gvk name "" ≡ GetReply.not_found e))

  -- Every marked CRD was missing.
  abbrev pub Justified : Sentinel → Type 0
  Justified r = All WasMissing (made r.missing_crds)

  Returns-crd_exists :
      (name : String)
      → Returns (λ e. Unit {0}) (λ b. (b ≡ true) ⊎ WasMissing name) (crd_exists env name)
  unfolding crd_exists
  Returns-crd_exists name = Returns-bind _ _ (Returns-get_object env _ _ _) λ reply answered.
      Returns-on_reply reply _ _ _ (λ v _. Returns-return _ (inl refl))
        (λ e h. Returns-return _ (inr (answered.0, (e, answered.1 ∙ h))))
        (λ e h. Returns-raise _ tt)

  abbrev Lacking : List Prerequisite → Type 0
  Lacking = All (λ p. WasMissing (gvk_to_crd_name p.gvk))

  lacking :
      (b : Bool) (p : Prerequisite) (ps : List Prerequisite)
      → (b ≡ true) ⊎ WasMissing (gvk_to_crd_name p.gvk)
      → Lacking ps
      → Lacking (if b then ps else p ∷ ps)
  lacking true p ps h l = l
  lacking false p ps (inr w) l = (w, l)
  lacking false p ps (inl e) l = ground arith

  Returns-check :
      (ps : List Prerequisite) → Returns (λ e. Unit {0}) Lacking (check_prerequisites env ps)
  unfolding check_prerequisites
  Returns-check [] = Returns-return _ tt
  Returns-check (p ∷ ps) =
      Returns-unless_error _ _ _ (Returns-crd_exists _) (λ e h. Returns-raise _ tt)
        λ b h.
          Returns-bind _ _ (Returns-check ps)
            λ missing l. Returns-return _ (lacking b p missing h l)

  mark_all-Justified :
      (ps : List Prerequisite) (r : Sentinel)
      → Lacking ps
      → Justified r
      → Justified (mark_all env ps r)
  unfolding mark_all mark_crd_missing made
  mark_all-Justified [] r l j = j
  mark_all-Justified (p ∷ ps) r l j = mark_all-Justified ps _ l.1 (l.0, j)

  Returns-mark_profiles :
      (registry : Registry) (names : List String) (r : Sentinel)
      → Justified r
      → Returns (λ e. ⊥) Justified (mark_profiles env registry names r)
  unfolding mark_profiles
  Returns-mark_profiles registry [] r j = Returns-return r j
  Returns-mark_profiles registry (name ∷ names) r j =
      Returns-unless_error _ _ _ (Returns-lift (get_profile env registry name))
        (λ e h. Returns-mark_profiles registry names r j)
        λ profile h.
          Returns-unless_error _ _ _ (Returns-check profile.prerequisites)
            (λ e u. Returns-mark_profiles registry names r j)
            λ missing l.
              Returns-mark_profiles registry names (mark_all env missing r)
                (mark_all-Justified missing r l j)

  -- The operator exits on an event of this CRD.
  abbrev pub Exits : Sentinel → String → State → Type 0
  Exits r name s = (t : State) × (reconcile_crd env r name s ≡ done exited t)

  abbrev pub Installed : String → State → Type 0
  Installed name s = (v : Value) × (env.serve_get s.history crd_gvk name "" ≡ GetReply.found v)

  is_missing_iff :
      (r : Sentinel) (name : String) → (is_missing r name ≡ true) ↔ Memᴰ name (made r.missing_crds)
  unfolding is_missing
  is_missing_iff r name = (any_sound name _, any_complete name _)

  answered :
      (reply : GetReply) (s t : State)
      → on_reply reply (λ _. return exited) (λ _. return returned) (λ e. return (End.failed e)) s
        ≡ done exited t
      → (v : Value) × (reply ≡ GetReply.found v)
  unfolding on_reply return
  answered (GetReply.found v) s t h = (v, refl)
  answered (GetReply.not_found e) s t h = ground arith
  answered (GetReply.failure e) s t h = ground arith

  no_exit : (s t : State) → done returned s ≢ done exited t
  no_exit s t h = ground arith

  Exits-sound :
      (r : Sentinel) (name : String) (s : State)
      → Exits r name s
      → Memᴰ name (made r.missing_crds) × Installed name s
  unfolding reconcile_crd get_object ◌>>=◌ return
  Exits-sound r name s (t, h) = elim (Bool-cases (is_missing r name)) [
    | inl e ↦ (
      (is_missing_iff r name).0 e,
      answered _ _ t (sym (ap {A = M End} (λ m. m s) (if_true _ _ e)) ∙ h),
    )
    | inr e ↦ absurd (no_exit s t (sym (ap {A = M End} (λ m. m s) (if_false _ _ e)) ∙ h))
  ]

  Exits-complete :
      (r : Sentinel) (name : String) (s : State)
      → Memᴰ name (made r.missing_crds)
      → Installed name s
      → Exits r name s
  unfolding reconcile_crd get_object ◌>>=◌ return on_reply
  Exits-complete r name s m (v, h) = (
    record s { history = get crd_gvk name "" ∷ s.history },
    ap {A = M End} (λ m. m s) (if_true _ _ ((is_missing_iff r name).1 m)) ∙ rw h refl,
  )

  -- With the sentinel that the start of the operator makes, an event of a CRD restarts the operator
  -- exactly when the CRD is marked and the API server now finds it; and every CRD that is marked was
  -- one that the API server did not find at the start.
  pub start_sentinel-Exits :
      (registry : Registry) (names : List String) (r : Sentinel) (s t : State)
      → start_sentinel env registry names s ≡ done r t
      → ((name : String) (u : State)
          → Exits r name u ↔ (Memᴰ name (made r.missing_crds) × Installed name u))
        × Justified r
  unfolding start_sentinel made
  start_sentinel-Exits registry names r s t h = (
    (λ name u. (Exits-sound r name u, (λ p. Exits-complete r name u p.0 p.1))),
    subst (Holds (λ e. ⊥) Justified) h
        ((Returns-mark_profiles registry names (record { missing_crds = some [] }) tt).at s),
  )
