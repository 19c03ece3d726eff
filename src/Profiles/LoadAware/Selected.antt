-- ===== src/Profiles/LoadAware/Selected.antt =====
-- What the load-aware profile selects for the KubeDescheduler.
use mathlib.Core.List.Memᴰ.{append_left, append_right}
use virt_advisor_operator.Base.{
  String, true, List, [], ◌∷◌, ◌++◌, ◌≡◌, ◌≢◌, ◌⊎◌, ◌↔◌, inl, inr, refl, sym, ap, subst, ◌∙◌, Memᴰ,
  Bool-cases, if_true, if_false, arith, string_eq, ◌==◌,
}
use virt_advisor_operator.Api.Json.{Value, str, Value}
use virt_advisor_operator.Kube.{
  Env, State, GetReply, Nested, present, absent, invalid, on_reply, return, get_object, ◌>>=◌,
}
use virt_advisor_operator.Util.{get_nested_slice}
use virt_advisor_operator.Kube.Returns.{Holds}
use virt_advisor_operator.Plan.{get_unstructured}
use virt_advisor_operator.Profiles.LoadAware.Selection.{
  string_in_slice, first_available, preferred_profiles, relieve_and_migrate, preserved,
  is_preserved, kept_profiles, build_profiles_list, kube_descheduler_gvk, kube_descheduler_name,
  kube_descheduler_namespace,
}

string_in_slice_sound : (s : String) (l : List String) → string_in_slice s l ≡ true → Memᴰ s l
unfolding string_in_slice
string_in_slice_sound s [] h = ground arith
string_in_slice_sound s (x ∷ l) h = elim (Bool-cases (x == s)) [
  | inl e ↦ Memᴰ.head (sym ((string_eq.equal_iff x s).0 e))
  | inr e ↦ Memᴰ.tail (string_in_slice_sound s l (sym (if_false _ _ e) ∙ h))
]

string_in_slice_complete : (s : String) (l : List String) → Memᴰ s l → string_in_slice s l ≡ true
unfolding string_in_slice
string_in_slice_complete s [] m = elim m [ ]
string_in_slice_complete s (x ∷ l) (Memᴰ.head e) = if_true _ _ ((string_eq.equal_iff x s).1 (sym e))
string_in_slice_complete s (x ∷ l) (Memᴰ.tail m) = elim (Bool-cases (x == s)) [
  | inl e ↦ if_true _ _ e
  | inr e ↦ if_false _ _ e ∙ string_in_slice_complete s l m
]

-- The first of the preferred names that is available, or the default if none is.
abbrev pub First : String → List String → List String → String → Type 0
First default available [] p = p ≡ default
First default available (q ∷ qs) p =
    (Memᴰ q available × (p ≡ q)) ⊎ (¬ Memᴰ q available × First default available qs p)

First-of :
    (available preferred : List String)
    → First relieve_and_migrate available preferred (first_available available preferred)
unfolding first_available
First-of available [] = refl
First-of available (q ∷ qs) = elim (Bool-cases (string_in_slice q available)) [
  | inl e ↦ inl (string_in_slice_sound q available e, if_true _ _ e)
  | inr e ↦ inr (
    (λ m. ground (arith, string_in_slice_complete q available m)),
    subst (First relieve_and_migrate available qs) (sym (if_false _ _ e)) (First-of available qs),
  )
]

-- The profile that is selected is the first that is available of KubeVirtRelieveAndMigrate, its
-- preview and LongLifecycle; if none of them is available, it is KubeVirtRelieveAndMigrate.
first_available-First :
    (available : List String)
    → First "KubeVirtRelieveAndMigrate" available
        ("KubeVirtRelieveAndMigrate" ∷ "DevKubeVirtRelieveAndMigrate" ∷ "LongLifecycle" ∷ [])
        (first_available available preferred_profiles)
first_available-First available = First-of available preferred_profiles

-- The names that may stay beside the selected profile.
abbrev pub Kept : String → Type 0
Kept q = (q ≡ "AffinityAndTaints") ⊎ (q ≡ "SoftTopologyAndDuplicates")

is_preserved_iff : (q : String) → (is_preserved q ≡ true) ↔ Kept q
unfolding is_preserved
is_preserved_iff q = ground (
  arith,
  string_eq.equal_iff q "AffinityAndTaints",
  string_eq.equal_iff q "SoftTopologyAndDuplicates",
)

-- A value is a text, or the loop passes it over.
abbrev View : Value → Type 0
View v =
    ((x : String) × (v ≡ str x))
    ⊎ (((vs : List Value) → preserved (v ∷ vs) ≡ preserved vs) × ((q : String) → str q ≢ v))

view : (v : Value) → View v
unfolding preserved
view (str x) = inl (x, refl)
view Value.null = inr ((λ vs. refl), (λ q. ground arith))
view (Value.bool b) = inr ((λ vs. refl), (λ q. ground arith))
view (Value.int n) = inr ((λ vs. refl), (λ q. ground arith))
view (Value.float x) = inr ((λ vs. refl), (λ q. ground arith))
view (Value.arr vs) = inr ((λ vs. refl), (λ q. ground arith))
view (Value.obj fs) = inr ((λ vs. refl), (λ q. ground arith))

str_injective : {x y : String} → str x ≡ str y → x ≡ y
str_injective h = ground arith

module _ (q : String) where
  -- What the text q has to do with the values.
  abbrev Chosen : List Value → Type 0
  Chosen vs = Memᴰ (str q) vs × Kept q

  Chosen-tail : (v : Value) (vs : List Value) → Chosen vs → Chosen (v ∷ vs)
  Chosen-tail v vs c = (Memᴰ.tail c.0, c.1)

  first_kept :
      (x : String) (vs : List Value)
      → is_preserved x ≡ true
      → (Memᴰ q (preserved vs) → Chosen vs)
      → Memᴰ q (x ∷ preserved vs)
      → Chosen (str x ∷ vs)
  first_kept x vs e ih (Memᴰ.head h) =
      (Memᴰ.head (ap str h), subst Kept (sym h) ((is_preserved_iff x).0 e))
  first_kept x vs e ih (Memᴰ.tail m) = Chosen-tail _ vs (ih m)

  text_sound :
      (x : String) (vs : List Value)
      → (Memᴰ q (preserved vs) → Chosen vs)
      → Memᴰ q (preserved (str x ∷ vs))
      → Chosen (str x ∷ vs)
  unfolding preserved
  text_sound x vs ih m = elim (Bool-cases (is_preserved x)) [
    | inl e ↦ first_kept x vs e ih (subst (Memᴰ q) (if_true _ _ e) m)
    | inr e ↦ Chosen-tail _ vs (ih (subst (Memᴰ q) (if_false _ _ e) m))
  ]

  sound : (vs : List Value) → Memᴰ q (preserved vs) → Chosen vs
  unfolding preserved
  sound (v ∷ vs) m = elim (view v) [
    | inl (x, e) ↦
        subst (λ w. Chosen (w ∷ vs)) (sym e)
          (text_sound x vs (sound vs) (subst (λ w. Memᴰ q (preserved (w ∷ vs))) e m))
    | inr (skipped, _) ↦ Chosen-tail v vs (sound vs (subst (Memᴰ q) (skipped vs) m))
  ]
  sound [] m = elim m [ ]

  text_complete :
      (x : String) (vs : List Value) → Memᴰ q (preserved vs) → Memᴰ q (preserved (str x ∷ vs))
  unfolding preserved
  text_complete x vs m = elim (Bool-cases (is_preserved x)) [
    | inl e ↦ subst (Memᴰ q) (sym (if_true _ _ e)) (Memᴰ.tail m)
    | inr e ↦ subst (Memᴰ q) (sym (if_false _ _ e)) m
  ]

  complete : (vs : List Value) → Memᴰ (str q) vs → Kept q → Memᴰ q (preserved vs)
  unfolding preserved
  complete [] m k = elim m [ ]
  complete (v ∷ vs) (Memᴰ.head h) k =
      subst (λ w. Memᴰ q (preserved (w ∷ vs))) h
        (subst (Memᴰ q) (sym (if_true _ _ ((is_preserved_iff q).1 k))) (Memᴰ.head refl))
  complete (v ∷ vs) (Memᴰ.tail m) k = elim (view v) [
    | inl (x, e) ↦
        subst (λ w. Memᴰ q (preserved (w ∷ vs))) (sym e) (text_complete x vs (complete vs m k))
    | inr (skipped, _) ↦ subst (Memᴰ q) (sym (skipped vs)) (complete vs m k)
  ]

append_last_sound : (q p : String) (l : List String) → Memᴰ q (l ++ p ∷ []) → (q ≡ p) ⊎ Memᴰ q l
append_last_sound q p [] (Memᴰ.head h) = inl h
append_last_sound q p [] (Memᴰ.tail m) = elim m [ ]
append_last_sound q p (x ∷ l) (Memᴰ.head h) = inr (Memᴰ.head h)
append_last_sound q p (x ∷ l) (Memᴰ.tail m) = elim (append_last_sound q p l m) [
  | inl e ↦ inl e
  | inr k ↦ inr (Memᴰ.tail k)
]

append_last_complete : (q p : String) (l : List String) → (q ≡ p) ⊎ Memᴰ q l → Memᴰ q (l ++ p ∷ [])
append_last_complete q p l (inl e) = append_right l (Memᴰ.head e)
append_last_complete q p l (inr m) = append_left (p ∷ []) m

module _ (env : Env) where
  -- The values of `spec.profiles` of the KubeDescheduler of the cluster; none if it cannot be read.
  abbrev pub listed : Nested (List Value) → List Value
  listed (present vs) = vs
  listed absent = []
  listed (invalid e) = []

  abbrev pub current_profiles : GetReply → List Value
  current_profiles (GetReply.found v) = listed (get_nested_slice env v ("spec" ∷ "profiles" ∷ []))
  current_profiles (GetReply.not_found e) = []
  current_profiles (GetReply.failure e) = []

  abbrev pub descheduler_reply : State → GetReply
  descheduler_reply s =
      env.serve_get s.history kube_descheduler_gvk kube_descheduler_name kube_descheduler_namespace

  -- What the list holds, of the reply.
  abbrev Listing : String → GetReply → List String → Type 0
  Listing p r l = (q : String) → Memᴰ q l ↔ (q ≡ p) ⊎ (Memᴰ (str q) (current_profiles r) × Kept q)

  Kept-listing :
      (p : String) (vs : List Value) (q : String)
      → Memᴰ q (preserved vs ++ p ∷ []) ↔ (q ≡ p) ⊎ (Memᴰ (str q) vs × Kept q)
  Kept-listing p vs q = (
    (λ m. elim (append_last_sound q p _ m) [ inl e ↦ inl e | inr k ↦ inr (sound q vs k) ]),
    (λ k.
        append_last_complete q p _
          (elim k [ inl e ↦ inl e | inr c ↦ inr (complete q vs c.0 c.1) ])),
  )

  only_listing : (p q : String) → Memᴰ q (p ∷ []) ↔ (q ≡ p) ⊎ (Memᴰ (str q) [] × Kept q)
  unfolding preserved
  only_listing p q = Kept-listing p [] q

  listing :
      (p : String) (v : Value) (n : Nested (List Value)) (q : String)
      → Memᴰ q (
          (elim n [ present current ↦ preserved current | absent ↦ [] | invalid _ ↦ [] ]) ++ p ∷ [])
        ↔ (q ≡ p) ⊎ (Memᴰ (str q) (listed n) × Kept q)
  listing p v (present vs) q = Kept-listing p vs q
  listing p v absent q = only_listing p q
  listing p v (invalid e) q = only_listing p q

  replied :
      (p : String) (r : GetReply) (t : State)
      → Holds
          (λ e. ⊥)
          (Listing p r)
          (on_reply r
            (λ existing. return (kept_profiles env existing ++ p ∷ []))
            (λ _. return (p ∷ []))
            (λ _. return (p ∷ []))
            t)
  unfolding on_reply return kept_profiles
  replied p (GetReply.found v) t = listing p v (get_nested_slice env v ("spec" ∷ "profiles" ∷ []))
  replied p (GetReply.not_found e) t = only_listing p
  replied p (GetReply.failure e) t = only_listing p

  -- The list of profiles is made without an error, whatever the API server answers. It holds the
  -- selected profile and, of those that the KubeDescheduler of the cluster lists,
  -- AffinityAndTaints and SoftTopologyAndDuplicates; and it holds no other.
  pub build_profiles_list-Mem :
      (p : String) (s : State)
      → Holds
          (λ e. ⊥)
          (λ l.
            (q : String)
            → Memᴰ q l ↔ (q ≡ p) ⊎ (Memᴰ (str q) (current_profiles (descheduler_reply s)) × Kept q))
          (build_profiles_list env p s)
  unfolding build_profiles_list get_unstructured get_object ◌>>=◌
  build_profiles_list-Mem p s = replied p (descheduler_reply s) _
