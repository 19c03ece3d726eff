-- ===== src/Controller/Watches/Registered.antt =====
-- What SetupWithManager watches, and its errors.
use virt_advisor_operator.Base.{
  String, Bool, true, false, Option, none, some, ◌⊕◌, List, [], ◌∷◌, if◌then◌else◌, ◌≡◌, ◌⊎◌, inl,
  inr, refl, arith, ◌∙◌, All, Memᴰ,
}
use virt_advisor_operator.Api.Json.{Value}
use virt_advisor_operator.Kube.{Env, Call, Result, ok, err, GroupVersionKind, GetReply}
use virt_advisor_operator.Kube.Faults.{Returns-get_object}
use virt_advisor_operator.Kube.Returns.{
  Returns, Caught, Returns-return, Returns-raise, Returns-bind, Returns-on_reply,
  Returns-attempt_of, Returns-weaken,
}
use virt_advisor_operator.Discovery.{crd_exists, crd_gvk, gvk_to_crd_name}
use virt_advisor_operator.Plan.Wait.{machine_config_pool_gvk}
use virt_advisor_operator.Profiles.{Registry}
use virt_advisor_operator.Profiles.Eviction.{hyper_converged_gvk}
use virt_advisor_operator.Profiles.ManagedTypes.{get_all_managed_resource_types}
use virt_advisor_operator.Controller.Watches.Advertised.{list}
use virt_advisor_operator.Controller.Watches.Loop.{Returns-initialize}
use virt_advisor_operator.Controller.Watches.Setup.{
  Watches, completed, found_crd, is_installed, watched, registered_watches, setup_with_manager,
}

module _ (env : Env) where
  -- What the API server answered about a CRD, after some calls.
  abbrev pub Answer : String → GetReply → Type 0
  Answer name r = (h : List Call) × (env.serve_get h crd_gvk name "" ≡ r)

  abbrev pub Present : String → Type 0
  Present name = (v : Value) × Answer name (GetReply.found v)

  -- The CRD is not there, or the API server could not tell.
  abbrev pub NotSeen : String → Type 0
  NotSeen name =
      (e : String) × (Answer name (GetReply.not_found e) ⊎ Answer name (GetReply.failure e))

  abbrev pub Told : String → Bool → Type 0
  Told name b = ((b ≡ true) × Present name) ⊎ ((b ≡ false) × NotSeen name)

  Returns-crd_exists :
      (name : String) → Returns (λ e. NotSeen name) (Told name) (crd_exists env name)
  unfolding crd_exists
  Returns-crd_exists name = Returns-bind _ _ (Returns-get_object env _ _ _) λ reply a.
      Returns-on_reply reply _ _ _ (λ v h. Returns-return _ (inl (refl, (v, (a.0, a.1 ∙ h)))))
        (λ e h. Returns-return _ (inr (refl, (e, inl (a.0, a.1 ∙ h)))))
        (λ e h. Returns-raise _ (e, inr (a.0, a.1 ∙ h)))

  told :
      (name : String) (r : Result Bool)
      → Caught (λ e. NotSeen name) (Told name) r
      → Told name (found_crd r)
  unfolding found_crd
  told name (ok b) h = h
  told name (err e) h = inr (refl, h)

  Returns-is_installed :
      (gvk : GroupVersionKind)
      → Returns (λ e. ⊥) (Told (gvk_to_crd_name gvk)) (is_installed env gvk)
  unfolding is_installed
  Returns-is_installed gvk =
      Returns-bind _ _
        (Returns-attempt_of (λ e. NotSeen (gvk_to_crd_name gvk)) (λ e. ⊥)
          (Told (gvk_to_crd_name gvk)) _ (Returns-crd_exists (gvk_to_crd_name gvk)))
        (λ r c. Returns-return _ (told _ r c))

  -- The watched types, of those that are to be watched.
  pub record Watching (wanted watching : List GroupVersionKind) : Type 0 where
    pub there : All (λ g. Present (gvk_to_crd_name g)) watching
    pub others : All (λ g. Memᴰ g watching ⊎ NotSeen (gvk_to_crd_name g)) wanted

  others_later :
      (g : GroupVersionKind) (wanted watching : List GroupVersionKind)
      → All (λ x. Memᴰ x watching ⊎ NotSeen (gvk_to_crd_name x)) wanted
      → All (λ x. Memᴰ x (g ∷ watching) ⊎ NotSeen (gvk_to_crd_name x)) wanted
  others_later g [] watching h = tt
  others_later g (x ∷ wanted) watching h =
      ((elim h.0 [ inl m ↦ inl (Memᴰ.tail m) | inr n ↦ inr n ]), others_later g wanted watching h.1)

  Watching-more :
      (g : GroupVersionKind) (wanted watching : List GroupVersionKind) (b : Bool)
      → Told (gvk_to_crd_name g) b
      → Watching wanted watching
      → Watching (g ∷ wanted) (if b then g ∷ watching else watching)
  Watching-more g wanted watching true (inl p) w = record {
    there = (p.1, w.there);
    others = (inl (Memᴰ.head refl), others_later g wanted watching w.others);
  }
  Watching-more g wanted watching true (inr p) w = ground arith
  Watching-more g wanted watching false (inl p) w = ground arith
  Watching-more g wanted watching false (inr p) w = record {
    there = w.there;
    others = (inr p.1, w.others);
  }

  Returns-watched :
      (gvks : List GroupVersionKind) → Returns (λ e. ⊥) (Watching gvks) (watched env gvks)
  unfolding watched
  Returns-watched [] = Returns-return _ (record { there = tt; others = tt })
  Returns-watched (g ∷ gvks) = Returns-bind _ _ (Returns-is_installed g) λ b t.
      Returns-bind _ _ (Returns-watched gvks)
        λ rest w. Returns-return _ (Watching-more g gvks rest b t w)

  module _ (registry : Registry) where
    -- The watches are those for which the API server found the CRD, and left out are those for which
    -- it did not find it or could not tell.
    abbrev pub Registered : Watches → Type 0
    Registered w =
        Watching (get_all_managed_resource_types registry) w.managed
        × Told (gvk_to_crd_name machine_config_pool_gvk) w.pools
        × Told (gvk_to_crd_name hyper_converged_gvk) w.hco

    Returns-registered_watches : Returns (λ e. ⊥) Registered (registered_watches env registry)
    unfolding registered_watches
    Returns-registered_watches =
        Returns-bind _ _ (Returns-watched (get_all_managed_resource_types registry)) λ managed w.
          Returns-bind _ _ (Returns-is_installed machine_config_pool_gvk) λ pools p.
            Returns-bind _ _ (Returns-is_installed hyper_converged_gvk) λ hco h.
              Returns-bind _ _ (Returns-initialize env registry (list registry))
                λ u _. Returns-return _ (w, p, h)

    -- The error of the setup: that of `client.New`, or that of `Complete`.
    abbrev pub Refused : Option String → (Watches → Option String) → String → Type 0
    Refused new_client complete e =
        ((x : String) × ((new_client ≡ some x)
            × (e ≡ "failed to create direct client for CRD checking: " ⊕ x)))
        ⊎ ((new_client ≡ none) × ((w : Watches) × (Registered w × (complete w ≡ some e))))

    Returns-completed :
        (complete : Watches → Option String) (r : Option String) (w : Watches)
        → complete w ≡ r
        → Registered w
        → Returns
            (λ e. (w : Watches) × (Registered w × (complete w ≡ some e)))
            (λ w. (complete w ≡ none) × Registered w)
            (completed r w)
    unfolding completed
    Returns-completed complete none w h k = Returns-return w (h, k)
    Returns-completed complete (some e) w h k = Returns-raise e (w, (k, h))

    -- The setup of the controller returns an error only if controller-runtime does, when the direct
    -- client is created or when the controller is registered: missing CRDs, failed checks of them and
    -- failed advertisements make none. It registers a watch of a managed resource type, of
    -- MachineConfigPool and of HyperConverged only where the API server found the CRD; and where it
    -- registers none, the API server did not find the CRD or could not tell.
    pub setup_with_manager-Watching :
        (new_client : Option String) (complete : Watches → Option String)
        → Returns
            (Refused new_client complete)
            (λ w. (new_client ≡ none) × ((complete w ≡ none) × Registered w))
            (setup_with_manager env new_client complete registry)
    unfolding setup_with_manager
    setup_with_manager-Watching (some x) complete = Returns-raise _ (inl (x, (refl, refl)))
    setup_with_manager-Watching none complete =
        Returns-bind _ _ (Returns-weaken _ Returns-registered_watches (λ e h. absurd h) (λ w h. h))
          λ w k.
            Returns-weaken _ (Returns-completed complete (complete w) w refl k)
              (λ e h. inr (refl, h)) (λ v h. (refl, h))
