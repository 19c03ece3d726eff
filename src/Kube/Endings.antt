-- ===== src/Kube/Endings.antt =====
-- What a function leads to from some states: a relation `Post` between the states before and after, of which
-- all steps but the last keep the relation `Kept`, with one rule for each way to build a function of the monad.
use virt_advisor_operator.Base.{String, Bool, true, false, Option, none, some, if◌then◌else◌}
use virt_advisor_operator.Kube.{State, Outcome, done, fail, M, ◌>>=◌, unless_error, if_nil, final}
use virt_advisor_operator.Kube.Effects.{Follows}

-- The states before, the steps and the end, and how they fit together.
pub record Ending : Type 1 where
  pub Pre : State → Type 0
  pub Kept : State → State → Type 0
  pub Post : State → State → Type 0
  pub carries : (s t : State) → Kept s t → Pre s → Pre t
  pub absorbs : (s t u : State) → Kept s t → Post t u → Post s u
  pub stops : (s t : State) → Kept s t → Post s t

-- From a state with `Pre`, every run of `m` ends with `Post`.
pub record Ends {ℓ} {A : Type ℓ} (E : Ending) (m : M A) : Type ℓ where
  pub at : (s : State) → E.Pre s → E.Post s (final (m s))

module _ {E : Ending} where
  pub Ends-Follows {ℓ} : {A : Type ℓ} (m : M A) → Follows E.Kept m → Ends E m
  Ends-Follows m f = record { at = λ s p. E.stops s _ (f.at s) }

  module _ {ℓ κ} {A : Type ℓ} {B : Type κ} where
    continued :
        (o : Outcome A) (h : String → M B) (k : A → M B) (s : State)
        → E.Kept s (final o)
        → E.Pre s
        → ((e : String) (t : State) → E.Pre t → E.Kept s t → E.Post s (final (h e t)))
        → ((a : A) → Ends E (k a))
        → E.Post s (final (elim o [ done a t ↦ k a t | fail e t ↦ h e t ]))
    unfolding final
    continued (done a t) h k s r p eh ek = E.absorbs s t _ r ((ek a).at t (E.carries s t r p))
    continued (fail e t) h k s r p eh ek = eh e t (E.carries s t r p) r

    pub Ends-unless_error :
        (m : M A) (h : String → M B) (k : A → M B)
        → Follows E.Kept m
        → ((e : String) → Ends E (h e))
        → ((a : A) → Ends E (k a))
        → Ends E (unless_error m h k)
    unfolding unless_error
    Ends-unless_error m h k f eh ek = record {
      at =
          λ s p. continued (m s) h k s (f.at s) p (λ e t q r. E.absorbs s t _ r ((eh e).at t q)) ek;
    }

    pub Ends-bind :
        (m : M A) (k : A → M B) → Follows E.Kept m → ((a : A) → Ends E (k a)) → Ends E (m >>= k)
    unfolding ◌>>=◌ final
    Ends-bind m k f ek = record {
      at = λ s p. continued (m s) (λ e. fail e) k s (f.at s) p (λ e t q r. E.stops s t r) ek;
    }

module _ {E : Ending} where
  pub Ends-if {ℓ} :
      {A : Type ℓ} (b : Bool) (m n : M A) → Ends E m → Ends E n → Ends E (if b then m else n)
  Ends-if true m n em en = em
  Ends-if false m n em en = en

  pub Ends-if_nil {ℓ κ} :
      {A : Type ℓ} {B : Type κ} (o : Option A) (n : M B) (k : A → M B)
      → Ends E n
      → ((a : A) → Ends E (k a))
      → Ends E (if_nil o n k)
  unfolding if_nil
  Ends-if_nil none n k en ek = en
  Ends-if_nil (some a) n k en ek = ek a

pub ruleset ending_rules = (Ends-unless_error, Ends-bind, Ends-if, Ends-if_nil, Ends-Follows)
