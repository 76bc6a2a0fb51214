-- ===== src/Base/Failures.antt =====
-- What a call leaves: a value, or the way in which it failed.
use mathlib.Core.Path.{◌≡◌, refl, sym, subst, ◌∙◌}
use mathlib.Core.Option.{Option, none, some}

-- `panic` is an index out of range; `out_of_fuel` is a loop of the model that was cut short.
pub data Failure : Type 0 where
  panic out_of_fuel : Failure

pub data Result {ℓ} (A : Type ℓ) : Type ℓ where
  ok : A → Result A
  err : Failure → Result A

infixl 5 ◌>>=◌
abbrev pub ◌>>=◌ {ℓ κ} : {A : Type ℓ} {B : Type κ} → Result A → (A → Result B) → Result B
ok a >>= f = f a
err e >>= f = err e

abbrev pub or_panic {ℓ} : {A : Type ℓ} → Option A → Result A
or_panic none = err panic
or_panic (some a) = ok a

-- The call returns, and what it returns satisfies the predicate.
pub record Returns {ℓ κ} {A : Type ℓ} (P : A → Type κ) (r : Result A) : Type (ℓ ⊔ κ) where
  pub value : A
  pub returns : r ≡ ok value
  pub holds : P value

module _ {ℓ} {A : Type ℓ} where
  pub Returns-ok {κ} : {P : A → Type κ} (a : A) → P a → Returns P (ok a)
  Returns-ok a h = record { value = a; returns = refl; holds = h }

module _ {ℓ κ μ ν} {A : Type ℓ} {B : Type κ} (P : A → Type μ) (Q : B → Type ν) where
  pub Returns-bind :
      {m : Result A} (f : A → Result B)
      → Returns P m
      → ((a : A) → P a → Returns Q (f a))
      → Returns Q (m >>= f)
  Returns-bind f h k = rw h.returns (k h.value h.holds)

module _ {ℓ μ ν} {A : Type ℓ} (P : A → Type μ) (Q : A → Type ν) where
  pub Returns-map : {r : Result A} → ((a : A) → P a → Q a) → Returns P r → Returns Q r
  Returns-map k h = record { value = h.value; returns = h.returns; holds = k h.value h.holds }

-- The same as a predicate that computes with the result.
abbrev pub Ends {ℓ} : {A : Type ℓ} → (A → Type 0) → Result A → Type 0
Ends P (ok a) = P a
Ends P (err e) = ⊥

-- What holds of the value that a call returns.
pub Returns-at {ℓ} :
    {A : Type ℓ} (P : A → Type 0) {r : Result A} {a : A} → Returns P r → r ≡ ok a → P a
Returns-at P h e = subst (Ends P) (sym h.returns ∙ e) h.holds
