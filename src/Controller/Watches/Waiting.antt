-- ===== src/Controller/Watches/Waiting.antt =====
-- Which VirtPlatformConfigs an event of a MachineConfigPool enqueues.
use virt_advisor_operator.Base.{
  String, true, List, [], ◌∷◌, map, ◌≡◌, ◌⊎◌, ◌↔◌, refl, sym, ap, subst, ◌∙◌, inl, inr, arith, Memᴰ,
  Distinct, Bool-cases, if_true, if_false, and_iff, string_eq,
}
use virt_advisor_operator.Api.{Config, Item, ItemState, PlanPhase, state_eq}
use virt_advisor_operator.Kube.{ok}
use virt_advisor_operator.Controller.Watches.{listed_or_none, requests_for}
use virt_advisor_operator.Controller.Watches.Pools.{
  waits_for_pool, any_started, is_started, cares_about_pools, enqueue_machine_config_pool_owners,
}
use virt_advisor_operator.Controller.Watches.Requests.{
  requests_for_sound, requests_for_complete, requests_for-Distinct,
}

any_started_sound :
    (items : List Item)
    → any_started items ≡ true
    → (item : Item) × (Memᴰ item items × (is_started item ≡ true))
unfolding any_started
any_started_sound [] h = ground arith
any_started_sound (i ∷ items) h = elim (Bool-cases (is_started i)) [
  | inl e ↦ (i, (Memᴰ.head refl, e))
  | inr e ↦
      let r = any_started_sound items (sym (if_false _ _ e) ∙ h) in (r.0, (Memᴰ.tail r.1.0, r.1.1))
]

any_started_complete :
    (items : List Item) (x : Item) → Memᴰ x items → is_started x ≡ true → any_started items ≡ true
unfolding any_started
any_started_complete [] x m h = elim m [ ]
any_started_complete (i ∷ items) x (Memᴰ.head e) h = if_true _ _ (ap is_started (sym e) ∙ h)
any_started_complete (i ∷ items) x (Memᴰ.tail m) h = elim (Bool-cases (is_started i)) [
  | inl e ↦ if_true _ _ e
  | inr e ↦ if_false _ _ e ∙ any_started_complete items x m h
]

-- A MachineConfig that was applied, or is being applied.
abbrev pub Started : Item → Type 0
Started item =
    (item.target_ref.kind ≡ "MachineConfig")
    × ((item.state ≡ ItemState.in_progress) ⊎ (item.state ≡ ItemState.completed))

is_started_iff : (item : Item) → (is_started item ≡ true) ↔ Started item
unfolding is_started
is_started_iff item = ground (
  arith,
  string_eq.equal_iff item.target_ref.kind "MachineConfig",
  state_eq.equal_iff item.state ItemState.in_progress,
  state_eq.equal_iff item.state ItemState.completed,
)

abbrev pub InPoolPhase : PlanPhase → Type 0
InPoolPhase p = (p ≡ PlanPhase.in_progress) ⊎ ((p ≡ PlanPhase.completed) ⊎ (p ≡ PlanPhase.drafting))

cares_about_pools_iff : (p : PlanPhase) → (cares_about_pools p ≡ true) ↔ InPoolPhase p
unfolding cares_about_pools
cares_about_pools_iff p = ground arith

-- A VirtPlatformConfig that a MachineConfigPool may hold up.
abbrev pub Waiting : Config → Type 0
Waiting c = InPoolPhase c.status.phase × ((item : Item) × (Memᴰ item c.status.items × Started item))

waits_for_pool_iff : (c : Config) → (waits_for_pool c ≡ true) ↔ Waiting c
unfolding waits_for_pool
waits_for_pool_iff c = (
  (λ h.
      let b = (and_iff (cares_about_pools c.status.phase) (any_started c.status.items)).0 h in
      let r = any_started_sound c.status.items b.1 in
      ((cares_about_pools_iff c.status.phase).0 b.0, (r.0, (r.1.0, (is_started_iff r.0).0 r.1.1)))),
  (λ w. (and_iff (cares_about_pools c.status.phase) (any_started c.status.items)).1 (
    (cares_about_pools_iff c.status.phase).1 w.0,
    any_started_complete c.status.items w.1.0 w.1.1.0 ((is_started_iff w.1.0).1 w.1.1.1),
  )),
)

-- Of the VirtPlatformConfigs that were listed under distinct names, an event of a MachineConfigPool
-- enqueues, each once, those in the phase InProgress, Completed or Drafting that have a
-- MachineConfig item in progress or completed.
pub enqueue_machine_config_pool_owners-Waiting :
    (configs : List Config)
    → Distinct (map (λ c. c.name) configs)
    → Distinct (enqueue_machine_config_pool_owners (ok configs))
      × ((n : String)
          → Memᴰ n (enqueue_machine_config_pool_owners (ok configs))
            ↔ ((c : Config) × (Memᴰ c configs × ((c.name ≡ n) × Waiting c))))
unfolding enqueue_machine_config_pool_owners listed_or_none
enqueue_machine_config_pool_owners-Waiting configs h = (
  requests_for-Distinct waits_for_pool configs h,
  (λ n. (
    (λ m.
        let p = requests_for_sound waits_for_pool n configs m in
        (p.0, (p.1.0, (p.1.1.0, (waits_for_pool_iff p.0).0 p.1.1.1)))),
    (λ p.
        subst (λ x. Memᴰ x (requests_for waits_for_pool configs)) p.1.1.0
          (requests_for_complete waits_for_pool configs p.0 p.1.0
            ((waits_for_pool_iff p.0).1 p.1.1.1))),
  )),
)
