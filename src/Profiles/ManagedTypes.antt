-- ===== src/Profiles/ManagedTypes.antt =====
-- GetAllManagedResourceTypes of internal/profiles/profiles.go.
use mathlib.Core.List.Memᴰ.{cases_cons}
use virt_advisor_operator.Base.{
  true, List, [], ◌∷◌, ◌==◌, ◌≡◌, ◌⊎◌, ◌↔◌, sym, subst, ◌∙◌, inl, inr, arith, Memᴰ, Distinct,
  Bool-cases, if_true, if_false, any, if◌then◌else◌,
}
use virt_advisor_operator.Kube.{GroupVersionKind, gvk_eq}
use virt_advisor_operator.Profiles.{Registry}

-- `gvkSet[gvk] = true`: the keys of the map, each once.
unfoldable pub put : GroupVersionKind → List GroupVersionKind → List GroupVersionKind
put gvk set = if any (λ g. g == gvk) set then set else gvk ∷ set

unfoldable pub put_all : List GroupVersionKind → List GroupVersionKind → List GroupVersionKind
put_all [] set = set
put_all (gvk ∷ gvks) set = put_all gvks (put gvk set)

-- The loop over the profiles.
unfoldable pub collect : Registry → List GroupVersionKind → List GroupVersionKind
collect [] set = set
collect ((name, profile) ∷ registry) set =
    collect registry (put_all profile.managed_resource_types set)

-- Go's order over the maps is not fixed; this takes the entries in order.
unfoldable pub get_all_managed_resource_types : Registry → List GroupVersionKind
get_all_managed_resource_types registry = collect registry []

-- Some profile of the registry manages the type.
abbrev pub Managed : GroupVersionKind → Registry → Type 0
Managed g [] = ⊥
Managed g ((name, profile) ∷ registry) = Memᴰ g profile.managed_resource_types ⊎ Managed g registry

module _ (g : GroupVersionKind) where
  any_sound : (set : List GroupVersionKind) → any (λ x. x == g) set ≡ true → Memᴰ g set
  any_sound [] h = ground arith
  any_sound (x ∷ set) h = elim (Bool-cases (x == g)) [
    | inl e ↦ Memᴰ.head (sym ((gvk_eq.equal_iff x g).0 e))
    | inr e ↦ Memᴰ.tail (any_sound set (sym (if_false _ _ e) ∙ h))
  ]

  any_complete : (set : List GroupVersionKind) → Memᴰ g set → any (λ x. x == g) set ≡ true
  any_complete [] m = elim m [ ]
  any_complete (x ∷ set) (Memᴰ.head e) = if_true _ _ ((gvk_eq.equal_iff x g).1 (sym e))
  any_complete (x ∷ set) (Memᴰ.tail m) = elim (Bool-cases (x == g)) [
    | inl e ↦ if_true _ _ e
    | inr e ↦ if_false _ _ e ∙ any_complete set m
  ]

put-Distinct :
    (g : GroupVersionKind) (set : List GroupVersionKind) → Distinct set → Distinct (put g set)
unfolding put
put-Distinct g set d = elim (Bool-cases (any (λ x. x == g) set)) [
  | inl e ↦ subst Distinct (sym (if_true _ _ e)) d
  | inr e ↦ subst Distinct (sym (if_false _ _ e)) ((λ m. ground (arith, any_complete g set m)), d)
]

module _ (x : GroupVersionKind) where
  put_sound :
      (g : GroupVersionKind) (set : List GroupVersionKind)
      → Memᴰ x (put g set)
      → (x ≡ g) ⊎ Memᴰ x set
  unfolding put
  put_sound g set m = elim (Bool-cases (any (λ y. y == g) set)) [
    | inl e ↦ inr (subst (Memᴰ x) (if_true _ _ e) m)
    | inr e ↦ cases_cons (subst (Memᴰ x) (if_false _ _ e) m)
  ]

  put_complete :
      (g : GroupVersionKind) (set : List GroupVersionKind)
      → (x ≡ g) ⊎ Memᴰ x set
      → Memᴰ x (put g set)
  unfolding put
  put_complete g set m = elim (Bool-cases (any (λ y. y == g) set)) [
    | inl e ↦
        subst (Memᴰ x) (sym (if_true _ _ e))
          (elim m [ inl h ↦ subst (λ y. Memᴰ y set) (sym h) (any_sound g set e) | inr k ↦ k ])
    | inr e ↦
        subst (Memᴰ x) (sym (if_false _ _ e)) (elim m [ inl h ↦ Memᴰ.head h | inr k ↦ Memᴰ.tail k ])
  ]

  put_all_sound :
      (gs set : List GroupVersionKind) → Memᴰ x (put_all gs set) → Memᴰ x gs ⊎ Memᴰ x set
  unfolding put_all
  put_all_sound [] set m = inr m
  put_all_sound (g ∷ gs) set m = elim (put_all_sound gs (put g set) m) [
    | inl k ↦ inl (Memᴰ.tail k)
    | inr k ↦ (elim (put_sound g set k) [ inl h ↦ inl (Memᴰ.head h) | inr j ↦ inr j ])
  ]

  put_all_complete :
      (gs set : List GroupVersionKind) → Memᴰ x gs ⊎ Memᴰ x set → Memᴰ x (put_all gs set)
  unfolding put_all
  put_all_complete [] set (inl k) = elim k [ ]
  put_all_complete [] set (inr k) = k
  put_all_complete (g ∷ gs) set (inl (Memᴰ.head h)) =
      put_all_complete gs (put g set) (inr (put_complete g set (inl h)))
  put_all_complete (g ∷ gs) set (inl (Memᴰ.tail k)) = put_all_complete gs (put g set) (inl k)
  put_all_complete (g ∷ gs) set (inr k) =
      put_all_complete gs (put g set) (inr (put_complete g set (inr k)))

  collect_sound :
      (r : Registry) (set : List GroupVersionKind)
      → Memᴰ x (collect r set)
      → Managed x r ⊎ Memᴰ x set
  unfolding collect
  collect_sound [] set m = inr m
  collect_sound ((name, p) ∷ r) set m = elim (collect_sound r _ m) [
    | inl k ↦ inl (inr k)
    | inr k ↦ (elim (put_all_sound p.managed_resource_types set k) [
      | inl h ↦ inl (inl h)
      | inr h ↦ inr h
    ])
  ]

  collect_complete :
      (r : Registry) (set : List GroupVersionKind)
      → Managed x r ⊎ Memᴰ x set
      → Memᴰ x (collect r set)
  unfolding collect
  collect_complete [] set (inl k) = absurd k
  collect_complete [] set (inr k) = k
  collect_complete ((name, p) ∷ r) set (inl (inl k)) =
      collect_complete r _ (inr (put_all_complete p.managed_resource_types set (inl k)))
  collect_complete ((name, p) ∷ r) set (inl (inr k)) = collect_complete r _ (inl k)
  collect_complete ((name, p) ∷ r) set (inr k) =
      collect_complete r _ (inr (put_all_complete p.managed_resource_types set (inr k)))

put_all-Distinct : (gs set : List GroupVersionKind) → Distinct set → Distinct (put_all gs set)
unfolding put_all
put_all-Distinct [] set d = d
put_all-Distinct (g ∷ gs) set d = put_all-Distinct gs (put g set) (put-Distinct g set d)

collect-Distinct :
    (r : Registry) (set : List GroupVersionKind) → Distinct set → Distinct (collect r set)
unfolding collect
collect-Distinct [] set d = d
collect-Distinct ((name, p) ∷ r) set d =
    collect-Distinct r _ (put_all-Distinct p.managed_resource_types set d)

-- The resource types to watch are those that some registered profile manages, each once.
pub get_all_managed_resource_types-Managed :
    (r : Registry)
    → Distinct (get_all_managed_resource_types r)
      × ((g : GroupVersionKind) → Memᴰ g (get_all_managed_resource_types r) ↔ Managed g r)
unfolding get_all_managed_resource_types
get_all_managed_resource_types-Managed r = (
  collect-Distinct r [] tt,
  (λ g. (
    (λ m. elim (collect_sound g r [] m) [ inl k ↦ k | inr k ↦ elim k [ ] ]),
    (λ k. collect_complete g r [] (inl k)),
  )),
)
