-- ===== src/Kube/Returns.antt =====
-- What a function returns: a predicate on its results and one on its errors, with one rule for each
-- way to build a function of the monad.
use virt_advisor_operator.Base.{
  String, Bool, true, false, Option, none, some, ◌≡◌, refl, ap, if◌then◌else◌,
}
use virt_advisor_operator.Api.Json.{Value}
use virt_advisor_operator.Kube.{
  Outcome, done, fail, M, Result, ok, err, ◌>>=◌, return, raise, lift, attempt, unless_error,
  if_nil, on_reply, GetReply, State, final,
}

abbrev pub Holds {ℓ} : {A : Type ℓ} → (String → Type 0) → (A → Type 0) → Outcome A → Type 0
Holds F P (done a t) = P a
Holds F P (fail e t) = F e

-- Every result of `m` satisfies `P`, and every error `F`.
pub record Returns {ℓ} {A : Type ℓ} (F : String → Type 0) (P : A → Type 0) (m : M A) : Type ℓ where
  pub at : (s : State) → Holds F P (m s)

module _ {ℓ} {A : Type ℓ} {F : String → Type 0} {P : A → Type 0} where
  pub Returns-return : (a : A) → P a → Returns F P (return a)
  unfolding return
  Returns-return a h = record { at = λ s. h }

  pub Returns-raise : (e : String) → F e → Returns F P (raise e)
  unfolding raise
  Returns-raise e h = record { at = λ s. h }

  pub Returns-if :
      (b : Bool) (m n : M A)
      → (b ≡ true → Returns F P m)
      → (b ≡ false → Returns F P n)
      → Returns F P (if b then m else n)
  Returns-if true m n rm rn = rm refl
  Returns-if false m n rm rn = rn refl

  pub Returns-on_reply :
      (r : GetReply) (k : Value → M A) (n f : String → M A)
      → ((v : Value) → r ≡ GetReply.found v → Returns F P (k v))
      → ((e : String) → r ≡ GetReply.not_found e → Returns F P (n e))
      → ((e : String) → r ≡ GetReply.failure e → Returns F P (f e))
      → Returns F P (on_reply r k n f)
  unfolding on_reply
  Returns-on_reply (GetReply.found v) k n f rk rn rf = rk v refl
  Returns-on_reply (GetReply.not_found e) k n f rk rn rf = rn e refl
  Returns-on_reply (GetReply.failure e) k n f rk rn rf = rf e refl

pub Returns-lift : {A : Type 0} (r : Result A) → Returns (λ e. r ≡ err e) (λ a. r ≡ ok a) (lift r)
unfolding lift
Returns-lift (ok a) = record { at = λ s. refl }
Returns-lift (err e) = record { at = λ s. refl }

Holds-any {ℓ} : {A : Type ℓ} (o : Outcome A) → Holds (λ e. Unit {0}) (λ a. Unit {0}) o
Holds-any (done a t) = tt
Holds-any (fail e t) = tt

-- Nothing is known of the result or of the error.
pub Returns-any {ℓ} : {A : Type ℓ} (m : M A) → Returns (λ e. Unit) (λ a. Unit) m
Returns-any m = record { at = λ s. Holds-any (m s) }

module _ {ℓ} {A : Type ℓ} (F : String → Type 0) where
  -- An attempt returns no error.
  attempted :
      (o : Outcome A)
      → Holds F (λ r. Unit {0}) (elim o [ done a t ↦ done (ok a) t | fail e t ↦ done (err e) t ])
  attempted (done a t) = tt
  attempted (fail e t) = tt

  pub Returns-attempt : (m : M A) → Returns F (λ r. Unit) (attempt m)
  unfolding attempt
  Returns-attempt m = record { at = λ s. attempted (m s) }

module _ {ℓ} {A : Type ℓ} {F G : String → Type 0} {P Q : A → Type 0} where
  weaken :
      (o : Outcome A)
      → ((e : String) → F e → G e)
      → ((a : A) → P a → Q a)
      → Holds F P o
      → Holds G Q o
  weaken (done a t) f g h = g a h
  weaken (fail e t) f g h = f e h

  pub Returns-weaken :
      (m : M A) → Returns F P m → ((e : String) → F e → G e) → ((a : A) → P a → Q a) → Returns G Q m
  Returns-weaken m r f g = record { at = λ s. weaken (m s) f g (r.at s) }

module _ {ℓ κ} {A : Type ℓ} {B : Type κ} {F G : String → Type 0} {Q : A → Type 0}
    {P : B → Type 0} where
  returned :
      (o : Outcome A) (h : String → M B) (k : A → M B)
      → Holds G Q o
      → ((e : String) → G e → Returns F P (h e))
      → ((a : A) → Q a → Returns F P (k a))
      → Holds F P (elim o [ done a t ↦ k a t | fail e t ↦ h e t ])
  returned (done a t) h k q rh rk = (rk a q).at t
  returned (fail e t) h k q rh rk = (rh e q).at t

  pub Returns-unless_error :
      (m : M A) (h : String → M B) (k : A → M B)
      → Returns G Q m
      → ((e : String) → G e → Returns F P (h e))
      → ((a : A) → Q a → Returns F P (k a))
      → Returns F P (unless_error m h k)
  unfolding unless_error
  Returns-unless_error m h k rm rh rk = record { at = λ s. returned (m s) h k (rm.at s) rh rk }

module _ {ℓ κ} {A : Type ℓ} {B : Type κ} {F : String → Type 0} {Q : A → Type 0}
    {P : B → Type 0} where
  pub Returns-bind :
      (m : M A) (k : A → M B)
      → Returns F Q m
      → ((a : A) → Q a → Returns F P (k a))
      → Returns F P (m >>= k)
  unfolding ◌>>=◌
  Returns-bind m k rm rk = record {
    at = λ s. returned (m s) (λ e. fail e) k (rm.at s) (λ e h. record { at = λ t. h }) rk;
  }

module _ {ℓ κ} {A : Type ℓ} {B : Type κ} {F : String → Type 0} {P : B → Type 0} where
  pub Returns-if_nil :
      (o : Option A) (n : M B) (k : A → M B)
      → (o ≡ none → Returns F P n)
      → ((a : A) → o ≡ some a → Returns F P (k a))
      → Returns F P (if_nil o n k)
  unfolding if_nil
  Returns-if_nil none n k rn rk = rn refl
  Returns-if_nil (some a) n k rn rk = rk a refl

-- What an attempt says of the result, or of the error that it caught.
abbrev pub Caught {ℓ} : {A : Type ℓ} → (String → Type 0) → (A → Type 0) → Result A → Type 0
Caught F P (ok a) = P a
Caught F P (err e) = F e

module _ {ℓ} {A : Type ℓ} (F G : String → Type 0) (P : A → Type 0) where
  caught :
      (o : Outcome A)
      → Holds F P o
      → Holds G (Caught F P) (elim o [ done a t ↦ done (ok a) t | fail e t ↦ done (err e) t ])
  caught (done a t) h = h
  caught (fail e t) h = h

  pub Returns-attempt_of : (m : M A) → Returns F P m → Returns G (Caught F P) (attempt m)
  unfolding attempt
  Returns-attempt_of m r = record { at = λ s. caught (m s) (r.at s) }

-- A function that returns one value, and no error.
pub done_holds :
    {A : Type 0} (v : A) (o : Outcome A) → Holds (λ e. ⊥) (λ a. a ≡ v) o → o ≡ done v (final o)
unfolding final
done_holds v (done a t) h = ap (λ b. done b t) h
done_holds v (fail e t) h = absurd h
