-- ===== src/Base/Panics.antt =====
-- What a call that may panic comes to.
use mathlib.Core.Option.{Option, none, some}

pub data Outcome {ℓ} (A : Type ℓ) : Type ℓ where
  done : A → Outcome A
  panicked : Outcome A

infixl 5 ◌>>=◌
abbrev pub ◌>>=◌ {ℓ κ} : {A : Type ℓ} {B : Type κ} → Outcome A → (A → Outcome B) → Outcome B
done a >>= f = f a
panicked >>= f = panicked

-- `Option::unwrap`, and `Option::expect`.
abbrev pub unwrap {ℓ} : {A : Type ℓ} → Option A → Outcome A
unwrap none = panicked
unwrap (some a) = done a

-- The call does not panic, and what it returns satisfies the predicate.
abbrev pub Returns {ℓ} : {A : Type ℓ} → Outcome A → (A → Type 0) → Type 0
Returns (done a) P = P a
Returns panicked P = ⊥

pub Returns-map {ℓ} :
    {A : Type ℓ} {P Q : A → Type 0} (m : Outcome A)
    → ((a : A) → P a → Q a)
    → Returns m P
    → Returns m Q
Returns-map (done a) f h = f a h
Returns-map panicked f h = absurd h

pub Returns-both {ℓ} :
    {A : Type ℓ} {P Q R : A → Type 0} (m : Outcome A)
    → ((a : A) → P a → Q a → R a)
    → Returns m P
    → Returns m Q
    → Returns m R
Returns-both (done a) f h k = f a h k
Returns-both panicked f h k = absurd h

pub Returns-bind {ℓ κ} :
    {A : Type ℓ} {B : Type κ} {P : A → Type 0} (Q : B → Type 0) (m : Outcome A) (f : A → Outcome B)
    → Returns m P
    → ((a : A) → P a → Returns (f a) Q)
    → Returns (m >>= f) Q
Returns-bind Q (done a) f h k = k a h
Returns-bind Q panicked f h k = absurd h

-- To go on in another way from the same call.
pub Returns-instead {ℓ κ} :
    {A : Type ℓ} {B : Type κ} (P Q : B → Type 0) (m : Outcome A) (f g : A → Outcome B)
    → Returns (m >>= f) P
    → ((a : A) → Returns (f a) P → Returns (g a) Q)
    → Returns (m >>= g) Q
Returns-instead P Q (done a) f g h k = k a h
Returns-instead P Q panicked f g h k = absurd h
