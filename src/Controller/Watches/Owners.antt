-- ===== src/Controller/Watches/Owners.antt =====
-- An event of a managed resource reaches the VirtPlatformConfigs whose items refer to the resource.
use mathlib.Core.List.Memᴰ.{append_left, append_right, cases_cons}
use virt_advisor_operator.Base.{
  String, true, List, [], ◌∷◌, ◌++◌, string_eq, ◌≡◌, ◌⊎◌, ◌↔◌, refl, sym, ap, subst, ◌∙◌, inl, inr,
  arith, Memᴰ, Bool-cases, if_true, if_false,
}
use virt_advisor_operator.Api.{Config, Item}
use virt_advisor_operator.Api.Json.{Value}
use virt_advisor_operator.Kube.{Env, Result, ok, err}
use virt_advisor_operator.Profiles.Builder.{target_of}
use virt_advisor_operator.Controller.Watches.{
  Object, Event, created, updated, deleted, generic, typed, managed_resource_predicate,
  matches_target, refers_to, any_item, any_config, is_managed_resource, item_requests,
  config_requests, enqueue_managed_resource_owners, unstructured,
}

-- A member of an append is in one of the parts.
append_sound : {A : Type 0} (x : A) (l m : List A) → Memᴰ x (l ++ m) → Memᴰ x l ⊎ Memᴰ x m
append_sound x [] m k = inr k
append_sound x (y ∷ l) m (Memᴰ.head e) = inl (Memᴰ.head e)
append_sound x (y ∷ l) m (Memᴰ.tail k) = elim (append_sound x l m k) [
  | inl a ↦ inl (Memᴰ.tail a)
  | inr b ↦ inr b
]

module _ (env : Env) (object : Value) where
  refers_to_iff :
      (item : Item) → (refers_to env object item ≡ true) ↔ (item.target_ref ≡ target_of env object)
  unfolding refers_to
  refers_to_iff item = ground (
    arith,
    string_eq.equal_iff item.target_ref.kind (env.gvk_of object).kind,
    string_eq.equal_iff item.target_ref.name (env.name_of object),
    string_eq.equal_iff item.target_ref.api_version (env.group_version_text (env.gvk_of object)),
    string_eq.equal_iff item.target_ref.namespace (env.namespace_of object),
  )

  matches_target_iff :
      (item : Item)
      → (matches_target env object item ≡ true) ↔ (item.target_ref ≡ target_of env object)
  unfolding matches_target
  matches_target_iff item = ground (
    arith,
    string_eq.equal_iff item.target_ref.kind (env.gvk_of object).kind,
    string_eq.equal_iff item.target_ref.name (env.name_of object),
    string_eq.equal_iff item.target_ref.api_version (env.group_version_text (env.gvk_of object)),
    string_eq.equal_iff item.target_ref.namespace (env.namespace_of object),
  )

  -- An item of the list has the reference of the object.
  abbrev pub Refers : List Item → Type 0
  Refers items = (item : Item) × (Memᴰ item items × (item.target_ref ≡ target_of env object))

  Refers-later : (i : Item) (items : List Item) → Refers items → Refers (i ∷ items)
  Refers-later i items r = (r.0, (Memᴰ.tail r.1.0, r.1.1))

  any_item_sound : (items : List Item) → any_item env object items ≡ true → Refers items
  unfolding any_item
  any_item_sound [] h = ground arith
  any_item_sound (i ∷ items) h = elim (Bool-cases (refers_to env object i)) [
    | inl e ↦ (i, (Memᴰ.head refl, (refers_to_iff i).0 e))
    | inr e ↦ Refers-later i items (any_item_sound items (sym (if_false _ _ e) ∙ h))
  ]

  any_item_complete :
      (items : List Item) (x : Item)
      → Memᴰ x items
      → x.target_ref ≡ target_of env object
      → any_item env object items ≡ true
  unfolding any_item
  any_item_complete [] x m h = elim m [ ]
  any_item_complete (i ∷ items) x (Memᴰ.head e) h =
      if_true _ _ ((refers_to_iff i).1 (ap (λ j. j.target_ref) (sym e) ∙ h))
  any_item_complete (i ∷ items) x (Memᴰ.tail m) h = elim (Bool-cases (refers_to env object i)) [
    | inl e ↦ if_true _ _ e
    | inr e ↦ if_false _ _ e ∙ any_item_complete items x m h
  ]

  requests_sound :
      (n name : String) (items : List Item)
      → Memᴰ n (item_requests env object name items)
      → (name ≡ n) × Refers items
  unfolding item_requests
  requests_sound n name [] m = elim m [ ]
  requests_sound n name (i ∷ items) m = elim (Bool-cases (matches_target env object i)) [
    | inl e ↦ (elim (cases_cons (subst (Memᴰ n) (if_true _ _ e) m)) [
      | inl h ↦ (sym h, (i, (Memᴰ.head refl, (matches_target_iff i).0 e)))
      | inr k ↦ let r = requests_sound n name items k in (r.0, Refers-later i items r.1)
    ])
    | inr e ↦
        let r = requests_sound n name items (subst (Memᴰ n) (if_false _ _ e) m) in
        (r.0, Refers-later i items r.1)
  ]

  requests_complete :
      (name : String) (items : List Item) (x : Item)
      → Memᴰ x items
      → x.target_ref ≡ target_of env object
      → Memᴰ name (item_requests env object name items)
  unfolding item_requests
  requests_complete name [] x m h = elim m [ ]
  requests_complete name (i ∷ items) x (Memᴰ.head e) h =
      subst (Memᴰ name)
        (sym (if_true _ _ ((matches_target_iff i).1 (ap (λ j. j.target_ref) (sym e) ∙ h))))
        (Memᴰ.head refl)
  requests_complete name (i ∷ items) x (Memᴰ.tail m) h =
      let rest = requests_complete name items x m h in
      elim (Bool-cases (matches_target env object i)) [
        | inl e ↦ subst (Memᴰ name) (sym (if_true _ _ e)) (Memᴰ.tail rest)
        | inr e ↦ subst (Memᴰ name) (sym (if_false _ _ e)) rest
      ]

  -- A VirtPlatformConfig of the list with an item that has the reference of the object.
  abbrev pub Owner : List Config → Config → Type 0
  Owner configs c = Memᴰ c configs × Refers c.status.items

  Owner-later :
      (n : String) (d : Config) (configs : List Config)
      → (c : Config) × ((c.name ≡ n) × Owner configs c)
      → (c : Config) × ((c.name ≡ n) × Owner (d ∷ configs) c)
  Owner-later n d configs o = (o.0, (o.1.0, (Memᴰ.tail o.1.1.0, o.1.1.1)))

  config_requests_sound :
      (n : String) (configs : List Config)
      → Memᴰ n (config_requests env object configs)
      → (c : Config) × ((c.name ≡ n) × Owner configs c)
  unfolding config_requests
  config_requests_sound n [] m = elim m [ ]
  config_requests_sound n (d ∷ configs) m =
      elim (append_sound n (item_requests env object d.name d.status.items) _ m) [
        | inl k ↦
            let r = requests_sound n d.name d.status.items k in (d, (r.0, (Memᴰ.head refl, r.1)))
        | inr k ↦ Owner-later n d configs (config_requests_sound n configs k)
      ]

  config_requests_complete :
      (configs : List Config) (c : Config)
      → Owner configs c
      → Memᴰ c.name (config_requests env object configs)
  unfolding config_requests
  config_requests_complete [] c o = elim o.0 [ ]
  config_requests_complete (d ∷ configs) c (Memᴰ.head e, r) = append_left _ (
      subst (λ x. Memᴰ c.name (item_requests env object x.name x.status.items)) e
        (requests_complete c.name c.status.items r.0 r.1.0 r.1.1))
  config_requests_complete (d ∷ configs) c (Memᴰ.tail m, r) =
      append_right _ (config_requests_complete configs c (m, r))

  any_config_sound :
      (configs : List Config)
      → any_config env object configs ≡ true
      → (c : Config) × Owner configs c
  unfolding any_config
  any_config_sound [] h = ground arith
  any_config_sound (d ∷ configs) h = elim (Bool-cases (any_item env object d.status.items)) [
    | inl e ↦ (d, (Memᴰ.head refl, any_item_sound d.status.items e))
    | inr e ↦
        let o = any_config_sound configs (sym (if_false _ _ e) ∙ h) in
        (o.0, (Memᴰ.tail o.1.0, o.1.1))
  ]

  any_config_complete :
      (configs : List Config) (c : Config) → Owner configs c → any_config env object configs ≡ true
  unfolding any_config
  any_config_complete [] c o = elim o.0 [ ]
  any_config_complete (d ∷ configs) c (Memᴰ.head e, r) = if_true _ _ (
      subst (λ x. any_item env object x.status.items ≡ true) e
        (any_item_complete c.status.items r.0 r.1.0 r.1.1))
  any_config_complete (d ∷ configs) c (Memᴰ.tail m, r) =
      let rest = any_config_complete configs c (m, r) in
      elim (Bool-cases (any_item env object d.status.items)) [
        | inl e ↦ if_true _ _ e
        | inr e ↦ if_false _ _ e ∙ rest
      ]

  -- Of the VirtPlatformConfigs that were listed, an event of an object enqueues exactly those with
  -- an item whose reference is that of the object: its kind, name, namespace and API version.
  pub enqueue_managed_resource_owners-Mem :
      (configs : List Config) (n : String)
      → Memᴰ n (enqueue_managed_resource_owners env (ok configs) (unstructured object))
        ↔ ((c : Config) × ((c.name ≡ n) × Owner configs c))
  unfolding enqueue_managed_resource_owners
  enqueue_managed_resource_owners-Mem configs n = (
    config_requests_sound n configs,
    (λ o.
        subst (λ x. Memᴰ x (config_requests env object configs)) o.1.0
          (config_requests_complete configs o.0 o.1.1)),
  )

  is_managed_resource_iff :
      (configs : List Config)
      → (is_managed_resource env (ok configs) (unstructured object) ≡ true) ↔ (
          (n : String) × Memᴰ n
            (enqueue_managed_resource_owners env (ok configs) (unstructured object)))
  unfolding enqueue_managed_resource_owners is_managed_resource
  is_managed_resource_iff configs = (
    (λ h.
        let o = any_config_sound configs h in (o.0.name, config_requests_complete configs o.0 o.1)),
    (λ m. let o = config_requests_sound m.0 configs m.1 in any_config_complete configs o.0 o.1.1),
  )

-- The object that an event is about: after an update the new one.
abbrev pub subject : Event → Object
subject (created object) = object
subject (updated old object) = object
subject (deleted object) = object
subject (generic object) = object

module _ (env : Env) where
  agrees :
      (listed : Result (List Config)) (object : Object)
      → (is_managed_resource env listed object ≡ true)
        ↔ ((n : String) × Memᴰ n (enqueue_managed_resource_owners env listed object))
  unfolding enqueue_managed_resource_owners is_managed_resource
  agrees (ok configs) (unstructured object) = is_managed_resource_iff env object configs
  agrees (ok configs) typed = ((λ h. ground arith), (λ m. elim m.1 [ ]))
  agrees (err e) (unstructured object) = ((λ h. ground arith), (λ m. elim m.1 [ ]))
  agrees (err e) typed = ((λ h. ground arith), (λ m. elim m.1 [ ]))

  -- The predicate of the watch and its handler agree, though each compares references on its own: for
  -- every event, and also when the listing failed, the predicate passes the event exactly when the
  -- handler enqueues some VirtPlatformConfig for the object of the event, the new one in an update.
  pub managed_resource_predicate_iff :
      (listed : Result (List Config)) (event : Event)
      → (managed_resource_predicate env listed event ≡ true)
        ↔ ((n : String) × Memᴰ n (enqueue_managed_resource_owners env listed (subject event)))
  unfolding managed_resource_predicate
  managed_resource_predicate_iff listed (created object) = agrees listed object
  managed_resource_predicate_iff listed (updated old object) = agrees listed object
  managed_resource_predicate_iff listed (deleted object) = agrees listed object
  managed_resource_predicate_iff listed (generic object) = agrees listed object
