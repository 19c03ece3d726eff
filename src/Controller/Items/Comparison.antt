-- ===== src/Controller/Items/Comparison.antt =====
-- What it means that planItemsDiffer finds no difference.
use mathlib.Core.Option.{some-injective, none-ne-some}
use virt_advisor_operator.Base.{
  String, true, false, Option, none, some, List, [], ◌∷◌, ◌≡◌, refl, sym, ap, ◌∙◌, arith, any, All,
  Memᴰ, length, Bool-cases, inl, inr, if_true, if_false, ◌==◌, if◌then◌else◌, nat_eq, string_eq,
}
use virt_advisor_operator.Api.{Item, reference_beq_iff, impact_beq_iff}
use virt_advisor_operator.Kube.{Env}
use virt_advisor_operator.Controller.Items.{
  raw_text, same_texts, desired_state_differs, item_config_differs, applied_item, differs_from,
  plan_items_differ,
}

same_texts-eq : (xs ys : List String) → same_texts xs ys ≡ true → xs ≡ ys
unfolding same_texts
same_texts-eq [] [] h = refl
same_texts-eq [] (y ∷ ys) h = ground arith
same_texts-eq (x ∷ xs) [] h = ground arith
same_texts-eq (x ∷ xs) (y ∷ ys) h = ground (arith, string_eq.equal_iff x y, same_texts-eq xs ys)

module _ (env : Env) where
  abbrev normal : Option String → Option String
  normal none = none
  normal (some raw) = some (raw_text env raw)

  desired_state-eq :
      (a b : Option String) → desired_state_differs env a b ≡ false → normal a ≡ normal b
  unfolding desired_state_differs
  desired_state-eq none none h = refl
  desired_state-eq none (some b) h = ground arith
  desired_state-eq (some a) none h = ground arith
  desired_state-eq (some a) (some b) h =
      ground (arith, string_eq.equal_iff (raw_text env a) (raw_text env b))

  -- Two items that ask for the same configuration: the same target, impact and managed fields, and
  -- the same desired state once marshaled.
  abbrev pub SameConfig : Item → Item → Type 0
  SameConfig x y =
      (x.target_ref ≡ y.target_ref)
      × (x.impact_severity ≡ y.impact_severity)
      × (normal x.desired_state ≡ normal y.desired_state)
      × (x.managed_fields ≡ y.managed_fields)

  item_config-eq : (x y : Item) → item_config_differs env x y ≡ false → SameConfig x y
  unfolding item_config_differs
  item_config-eq x y h = ground (
    arith,
    reference_beq_iff x.target_ref y.target_ref,
    impact_beq_iff x.impact_severity y.impact_severity,
    desired_state-eq x.desired_state y.desired_state,
    same_texts-eq x.managed_fields y.managed_fields,
  )

  -- The applied items have one of the name of an item that asks for the same configuration.
  abbrev pub Applied : List Item → Item → Type 0
  Applied applied x = (y : Item) × (Memᴰ y applied × ((y.name ≡ x.name) × SameConfig x y))

  applied_item-Memᴰ :
      (name : String) (applied : List Item) (y : Item)
      → applied_item env name applied ≡ some y
      → Memᴰ y applied × (y.name ≡ name)
  unfolding applied_item
  applied_item-Memᴰ name [] y h = absurd (none-ne-some y h)
  applied_item-Memᴰ name (i ∷ applied) y h =
      in_rest (applied_item env name applied) (applied_item-Memᴰ name applied) h
    where
      in_rest :
          (o : Option Item)
          → ((z : Item) → o ≡ some z → Memᴰ z applied × (z.name ≡ name))
          → elim o [ some later ↦ some later | none ↦ if i.name == name then some i else none ]
            ≡ some y
          → Memᴰ y (i ∷ applied) × (y.name ≡ name)
      in_rest (some z) k e = let r = k y e in (Memᴰ.tail r.0, r.1)
      in_rest none k e = elim (Bool-cases (i.name == name)) [
        | inl q ↦
            let same = some-injective i y (sym (if_true _ _ q) ∙ e) in
            (
              Memᴰ.head (sym same),
              ap (λ (x : Item). x.name) (sym same) ∙ (string_eq.equal_iff i.name name).0 q,
            )
        | inr q ↦ absurd (none-ne-some y (sym (if_false _ _ q) ∙ e))
      ]

  found_item :
      (o : Option Item) (x : Item)
      → differs_from env o x ≡ false
      → (y : Item) × (o ≡ some y) × SameConfig x y
  unfolding differs_from
  found_item none x h = ground arith
  found_item (some y) x h = (y, refl, item_config-eq x y h)

  same_item :
      (applied : List Item) (x : Item)
      → differs_from env (applied_item env x.name applied) x ≡ false
      → Applied applied x
  same_item applied x h =
      let f = found_item (applied_item env x.name applied) x h in
      let m = applied_item-Memᴰ x.name applied f.0 f.1 in (f.0, (m.0, (m.1, f.2)))

  items-eq :
      (xs applied : List Item)
      → any (λ x. differs_from env (applied_item env x.name applied) x) xs ≡ false
      → All (Applied applied) xs
  items-eq [] applied h = tt
  items-eq (x ∷ xs) applied h =
      (same_item applied x (ground arith), items-eq xs applied (ground arith))

  -- If planItemsDiffer finds no difference, the two plans have the same number of items, and for
  -- every current item there is one among the applied items that has its name and asks for the same
  -- configuration.
  pub plan_items_differ-same :
      (current applied : List Item)
      → plan_items_differ env current applied ≡ false
      → (length current ≡ length applied) × All (Applied applied) current
  unfolding plan_items_differ
  plan_items_differ-same current applied h = (
    ground (arith, nat_eq.equal_iff (length current) (length applied)),
    items-eq current applied (ground arith),
  )
