-- ===== src/Kube/Applied.antt =====
-- What a function asks the API server to change outside of the VirtPlatformConfig, and the relations
-- between states that only such a change, or a new phase, can break.
use virt_advisor_operator.Base.{
  String, Option, none, some, List, [], ◌∷◌, ◌≡◌, refl, ◌∙◌, if◌then◌else◌, arith, true, ◌⊎◌, inl,
  inr, Memᴰ,
}
use virt_advisor_operator.Api.{Config}
use virt_advisor_operator.Api.Json.{Value}
use virt_advisor_operator.Kube.{
  Env, State, Result, ok, err, lift, final, now, get_object, patch_object, update_status,
  update_reply, GroupVersionKind, ApplyOptions, Call, get, patch, update, create,
}
use virt_advisor_operator.Kube.Effects.{IsPreorder, Follows}

-- The objects that were patched with no dry run.
abbrev pub applied : List Call → List Value
applied [] = []
applied (get _ _ _ ∷ h) = applied h
applied (update _ ∷ h) = applied h
applied (create _ ∷ h) = applied h
applied (patch v o ∷ h) = let rest = applied h in if o.dry_run then rest else v ∷ rest

-- The status updates that were sent, whether or not the API server accepted them.
abbrev pub sent : List Call → List Config
sent [] = []
sent (get _ _ _ ∷ h) = sent h
sent (patch _ _ ∷ h) = sent h
sent (create _ ∷ h) = sent h
sent (update c ∷ h) = c ∷ sent h

-- No object was sent in an update but the one in memory.
abbrev pub Sends : State → State → Type 0
Sends s t = (c : Config) → Memᴰ c (sent t.history) → Memᴰ c (sent s.history) ⊎ (c ≡ s.plan)

-- Nothing was written to the object in memory, no object was applied, and none sent but that in
-- memory.
abbrev pub Reads : State → State → Type 0
Reads s t = (t.plan ≡ s.plan) × (applied t.history ≡ applied s.history) × Sends s t

Reads-chain : (s t u : State) → Reads s t → Reads t u → Reads s u
Reads-chain s t u p q =
    (q.0 ∙ p.0, q.1 ∙ p.1, λ c m. elim (q.2 c m) [ inl k ↦ p.2 c k | inr e ↦ inr (e ∙ p.0) ])

-- A relation that reading keeps.
pub record Reading (R : State → State → Type 0) : Type 0 where
  pub order : IsPreorder R
  pub reading : (s t : State) → Reads s t → R s t

-- Reading is the strongest of these relations.
pub Reads-Reading : Reading Reads
Reads-Reading = record {
  order = record { same = λ s. (refl, refl, λ c m. inl m); chain = Reads-chain };
  reading = λ s t r. r;
}

-- No object was applied.
abbrev pub NoApply : State → State → Type 0
NoApply s t = applied t.history ≡ applied s.history

pub NoApply-Reading : Reading NoApply
NoApply-Reading = record {
  order = record { same = λ s. refl; chain = λ s t u p q. q ∙ p };
  reading = λ s t r. r.1;
}

sends : (p : Config) (l : List Config) (c : Config) → Memᴰ c (p ∷ l) → Memᴰ c l ⊎ (c ≡ p)
sends p l c (Memᴰ.head e) = inr e
sends p l c (Memᴰ.tail m) = inl m

module _ {R : State → State → Type 0} (base : Reading R) (env : Env) where
  pub Follows-now : Follows R (now env)
  unfolding now final
  Follows-now = record { at = λ s. base.order.same s }

  pub Follows-get_object :
      (gvk : GroupVersionKind) (name namespace : String)
      → Follows R (get_object env gvk name namespace)
  unfolding get_object final
  Follows-get_object gvk name namespace = record {
    at = λ s. base.reading s _ (refl, refl, λ c m. inl m);
  }

  replied : (r : Result Value) (s t : State) → R s t → R s (final (lift r t))
  unfolding lift final
  replied (ok v) s t h = h
  replied (err e) s t h = h

  pub Follows-patch_object :
      (v : Value) (o : ApplyOptions) → o.dry_run ≡ true → Follows R (patch_object env v o)
  unfolding patch_object
  Follows-patch_object v o h = record {
    at = λ s. replied _ s _ (base.reading s _ (refl, ground arith, λ c m. inl m));
  }

  updated : (r : Option String) (s t : State) → R s t → R s (final (update_reply r t))
  unfolding update_reply final
  updated none s t h = h
  updated (some e) s t h = h

  pub Follows-update_status : Follows R (update_status env)
  unfolding update_status
  Follows-update_status = record {
    at = λ s. updated _ s _ (base.reading s _ (refl, refl, sends s.plan (sent s.history)));
  }

pub ruleset quiet_rules =
    (Follows-now, Follows-get_object, Follows-patch_object, Follows-update_status)
