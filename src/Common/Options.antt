-- ===== src/Common/Options.antt =====
-- Chains of steps that may have no result, and what holds of the result when there is one.
use mathlib.Core.Path.{sym, ◌≡◌, subst}
use mathlib.Core.Option.{Option, none, some, some-injective}

infixl 5 ◌>>=◌
abbrev pub ◌>>=◌ {ℓ κ} : {A : Type ℓ} {B : Type κ} → Option A → (A → Option B) → Option B
none >>= f = none
some a >>= f = f a

module _ {ℓ κ} {A : Type ℓ} (P : A → Type κ) where
  -- The property, if there is a result.
  abbrev pub OnSome : Option A → Type κ
  OnSome none = Unit
  OnSome (some a) = P a

  pub OnSome-some : (o : Option A) {a : A} → OnSome o → o ≡ some a → P a
  OnSome-some none h e = cc
  OnSome-some (some b) h e = subst P (some-injective b _ e) h

pub OnSome-bind {ℓ κ μ ν} :
    {A : Type ℓ} {B : Type κ} (P : A → Type μ) (Q : B → Type ν) (o : Option A) (f : A → Option B)
    → OnSome P o
    → ((a : A) → P a → OnSome Q (f a))
    → OnSome Q (o >>= f)
OnSome-bind P Q none f h k = tt
OnSome-bind P Q (some a) f h k = k a h

pub OnSome-any {ℓ} : {A : Type ℓ} (o : Option A) → OnSome (λ a. Unit {0}) o
OnSome-any none = tt
OnSome-any (some a) = tt

-- What has no result satisfies everything.
pub OnSome-none {ℓ κ} :
    {A : Type ℓ} (P : A → Type κ) (o : Option A) (f : A → Option A)
    → ((a : A) → f a ≡ none)
    → OnSome P (o >>= f)
OnSome-none P none f h = tt
OnSome-none P (some a) f h = subst (OnSome P) (sym (h a)) tt

pub OnSome-map {ℓ κ μ} :
    {A : Type ℓ} (P : A → Type κ) (Q : A → Type μ) (o : Option A)
    → ((a : A) → P a → Q a)
    → OnSome P o
    → OnSome Q o
OnSome-map P Q none k h = tt
OnSome-map P Q (some a) k h = k a h
