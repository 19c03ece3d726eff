-- ===== src/Profiles/Registering.antt =====
-- The registry: what Register changes of what Get finds.
use virt_advisor_operator.Base.{
  String, ◌∷◌, ◌≡◌, ◌≢◌, refl, arith, string_eq, Option, none, some, ◌⊕◌,
}
use virt_advisor_operator.Kube.{Env, ok, err}
use virt_advisor_operator.Profiles.{
  Registry, Profile, lookup, get_profile, register, registered, found_profile,
}

lookup_self : (n : String) (p : Profile) (r : Registry) → lookup n ((n, p) ∷ r) ≡ some p
unfolding lookup
lookup_self n p r = rw ((string_eq.equal_iff n n).1 refl) refl

lookup_other :
    (n m : String) (p : Profile) (r : Registry) → n ≢ m → lookup n ((m, p) ∷ r) ≡ lookup n r
unfolding lookup
lookup_other n m p r h = ground (arith, string_eq.equal_iff m n)

module _ (env : Env) where
  added :
      (r s : Registry) (p : Profile) (o : Option Profile)
      → registered env r p o ≡ ok s
      → s ≡ (p.name, p) ∷ r
  unfolding registered
  added r s p none h = ground arith
  added r s p (some q) h = ground arith

  found_self : (n : String) (p : Profile) (r : Registry) → get_profile env ((n, p) ∷ r) n ≡ ok p
  unfolding get_profile found_profile
  found_self n p r = rw (lookup_self n p r) refl

  found_other :
      (n m : String) (p : Profile) (r : Registry)
      → n ≢ m
      → get_profile env ((m, p) ∷ r) n ≡ get_profile env r n
  unfolding get_profile
  found_other n m p r h = rw (lookup_other n m p r h) refl

  refused :
      (r : Registry) (p q : Profile)
      → q.name ≡ p.name
      → (e : String) × (register env ((p.name, p) ∷ r) q ≡ err e)
  unfolding register registered
  refused r p q e = (
    "profile " ⊕ env.quote q.name ⊕ " is already registered",
    rw (e, lookup_self p.name p r) refl,
  )

  -- After a successful Register, Get finds the profile under its name, what it finds under every other
  -- name is unchanged, and a second Register of that name is an error.
  get_profile-register :
      (r s : Registry) (p : Profile)
      → register env r p ≡ ok s
      → (get_profile env s p.name ≡ ok p)
        × ((n : String) → n ≢ p.name → get_profile env s n ≡ get_profile env r n)
        × ((q : Profile) → q.name ≡ p.name → (e : String) × (register env s q ≡ err e))
  unfolding register
  get_profile-register r s p h =
      rw (added r s p (lookup p.name r) h)
        ((found_self p.name p r, (λ n. found_other n p.name p r), refused r p))
