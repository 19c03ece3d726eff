-- ===== src/Kube/Effects.antt =====
-- What a function does to the state, whether or not it returns an error: a relation between the
-- state before and after, with one rule for each way to build a function of the monad.
use virt_advisor_operator.Base.{
  String, Bool, true, false, Option, none, some, List, [], ◌∷◌, if◌then◌else◌,
}
use virt_advisor_operator.Api.{Config}
use virt_advisor_operator.Kube.{
  State, Outcome, done, fail, M, Result, ok, err, ◌>>=◌, return, raise, reads, attempt, lift,
  unless_error, if_nil, for_each, final, on_reply, on_nested, GetReply, Nested,
}
use virt_advisor_operator.Api.Json.{Value}

pub record IsPreorder (R : State → State → Type 0) : Type 0 where
  pub same : (s : State) → R s s
  pub chain : (s t u : State) → R s t → R t u → R s u

-- Every run of `m` is a step of `R`.
pub record Follows {ℓ} {A : Type ℓ} (R : State → State → Type 0) (m : M A) : Type ℓ where
  pub at : (s : State) → R s (final (m s))

attempted {ℓ} :
    {A : Type ℓ} (R : State → State → Type 0) (o : Outcome A) (s : State)
    → R s (final o)
    → R s (final (elim o [ done a t ↦ done (ok a) t | fail e t ↦ done (err e) t ]))
unfolding final
attempted R (done a t) s h = h
attempted R (fail e t) s h = h

module _ {ℓ} {A : Type ℓ} {R : State → State → Type 0} where
  pub Follows-return : IsPreorder R → (a : A) → Follows R (return a)
  unfolding return final
  Follows-return p a = record { at = λ s. p.same s }

  pub Follows-raise : IsPreorder R → (e : String) → Follows R (raise {A = A} e)
  unfolding raise final
  Follows-raise p e = record { at = λ s. p.same s }

  pub Follows-reads : IsPreorder R → (f : Config → A) → Follows R (reads f)
  unfolding reads final
  Follows-reads p f = record { at = λ s. p.same s }

  pub Follows-lift : IsPreorder R → (r : Result A) → Follows R (lift r)
  unfolding lift final
  Follows-lift p (ok a) = record { at = λ s. p.same s }
  Follows-lift p (err e) = record { at = λ s. p.same s }

  pub Follows-attempt : (m : M A) → Follows R m → Follows R (attempt m)
  unfolding attempt
  Follows-attempt m fm = record { at = λ s. attempted R (m s) s (fm.at s) }

  pub Follows-if :
      (b : Bool) (m n : M A) → Follows R m → Follows R n → Follows R (if b then m else n)
  Follows-if true m n fm fn = fm
  Follows-if false m n fm fn = fn

module _ {ℓ κ} {A : Type ℓ} {B : Type κ} {R : State → State → Type 0} where
  branches :
      IsPreorder R
      → (o : Outcome A) (h : String → M B) (k : A → M B) (s : State) → R s (final o)
      → ((e : String) → Follows R (h e))
      → ((a : A) → Follows R (k a))
      → R s (final (elim o [ done a t ↦ k a t | fail e t ↦ h e t ]))
  unfolding final
  branches p (done a t) h k s r fh fk = p.chain s t _ r ((fk a).at t)
  branches p (fail e t) h k s r fh fk = p.chain s t _ r ((fh e).at t)

  pub Follows-unless_error :
      IsPreorder R
      → (m : M A) (h : String → M B) (k : A → M B) → Follows R m
      → ((e : String) → Follows R (h e))
      → ((a : A) → Follows R (k a))
      → Follows R (unless_error m h k)
  unfolding unless_error
  Follows-unless_error p m h k fm fh fk = record {
    at = λ s. branches p (m s) h k s (fm.at s) fh fk;
  }

  pub Follows-bind :
      IsPreorder R
      → (m : M A) (k : A → M B) → Follows R m
      → ((a : A) → Follows R (k a))
      → Follows R (m >>= k)
  unfolding ◌>>=◌ final
  Follows-bind p m k fm fk = record {
    at = λ s. branches p (m s) (λ e. fail e) k s (fm.at s) (λ e. record { at = λ t. p.same t }) fk;
  }

  pub Follows-if_nil :
      (o : Option A) (n : M B) (k : A → M B)
      → Follows R n
      → ((a : A) → Follows R (k a))
      → Follows R (if_nil o n k)
  unfolding if_nil
  Follows-if_nil none n k fn fk = fn
  Follows-if_nil (some a) n k fn fk = fk a

module _ {ℓ} {B : Type ℓ} {R : State → State → Type 0} where
  pub Follows-on_reply :
      (r : GetReply) (k : Value → M B) (n f : String → M B)
      → ((v : Value) → Follows R (k v))
      → ((e : String) → Follows R (n e))
      → ((e : String) → Follows R (f e))
      → Follows R (on_reply r k n f)
  unfolding on_reply
  Follows-on_reply (GetReply.found v) k n f fk fn ff = fk v
  Follows-on_reply (GetReply.not_found e) k n f fk fn ff = fn e
  Follows-on_reply (GetReply.failure e) k n f fk fn ff = ff e

module _ {ℓ κ} {A : Type ℓ} {B : Type κ} {R : State → State → Type 0} where
  pub Follows-on_nested :
      (r : Nested A) (k : A → M B) (n : M B) (f : String → M B)
      → ((a : A) → Follows R (k a))
      → Follows R n
      → ((e : String) → Follows R (f e))
      → Follows R (on_nested r k n f)
  unfolding on_nested
  Follows-on_nested (Nested.present a) k n f fk fn ff = fk a
  Follows-on_nested Nested.absent k n f fk fn ff = fn
  Follows-on_nested (Nested.invalid e) k n f fk fn ff = ff e

module _ {ℓ κ} {A : Type ℓ} {B : Type κ} {R : State → State → Type 0} where
  -- A result that is known.
  pub Follows-lift_ok :
      (a : A) (h : String → M B) (k : A → M B)
      → Follows R (k a)
      → Follows R (unless_error (lift (ok a)) h k)
  unfolding unless_error lift
  Follows-lift_ok a h k f = record { at = λ s. f.at s }

  pub Follows-lift_err :
      (e : String) (h : String → M B) (k : A → M B)
      → Follows R (h e)
      → Follows R (unless_error (lift (err e)) h k)
  unfolding unless_error lift
  Follows-lift_err e h k f = record { at = λ s. f.at s }

pub Follows-for_each {ℓ} :
    {A : Type ℓ} {R : State → State → Type 0}
    → IsPreorder R
    → (l : List A) (f : A → M (Unit {0})) → ((a : A) → Follows R (f a))
    → Follows R (for_each l f)
unfolding for_each return
Follows-for_each p [] f h = Follows-return p tt
Follows-for_each p (a ∷ l) f h =
    Follows-bind p (f a) (λ _. for_each l f) (h a) (λ _. Follows-for_each p l f h)

pub ruleset follow_rules = (
  Follows-return, Follows-raise, Follows-reads, Follows-lift, Follows-attempt, Follows-if,
  Follows-unless_error, Follows-bind, Follows-if_nil, Follows-for_each, Follows-on_reply,
  Follows-on_nested,
)
