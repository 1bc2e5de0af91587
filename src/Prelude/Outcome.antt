-- ===== src/Prelude/Outcome.antt =====
-- How a piece of Go code ends: it returns, it panics, or it waits for a lock for ever.
use mathlib.Core.Path.{◌≡◌, refl, subst}
use mathlib.Core.Option.{Option, none, some}

pub data Run {ℓ} (A : Type ℓ) : Type ℓ where
  done : A → Run A
  panics : Run A
  blocks : Run A

infixl 5 ◌>>=◌
abbrev pub ◌>>=◌ {ℓ κ} : {A : Type ℓ} {B : Type κ} → Run A → (A → Run B) → Run B
done a >>= f = f a
panics >>= f = panics
blocks >>= f = blocks

-- A value that the code reads without a test: its absence is a panic.
abbrev pub or_panic {ℓ} : {A : Type ℓ} → Option A → Run A
or_panic none = panics
or_panic (some a) = done a

-- The code returns, with a result that has the property.
abbrev pub Returns {ℓ} : {A : Type ℓ} → Run A → (A → Type 0) → Type 0
Returns (done a) P = P a
Returns panics P = ⊥
Returns blocks P = ⊥

-- The rule for a sequence of two steps.
pub Returns-bind {ℓ κ} :
    {A : Type ℓ} {B : Type κ} (m : Run A) (f : A → Run B) (P : A → Type 0) (Q : B → Type 0)
    → Returns m P
    → ((a : A) → P a → Returns (f a) Q)
    → Returns (m >>= f) Q
Returns-bind (done a) f P Q h k = k a h
Returns-bind panics f P Q h k = absurd h
Returns-bind blocks f P Q h k = absurd h

-- A weaker statement of the same run.
pub Returns-mono {ℓ} :
    {A : Type ℓ} (m : Run A) (P Q : A → Type 0) → Returns m P → ((a : A) → P a → Q a) → Returns m Q
Returns-mono (done a) P Q h k = k a h
Returns-mono panics P Q h k = absurd h
Returns-mono blocks P Q h k = absurd h

-- A sequence whose second step panics after whatever the first gives.
pub panics-bind {ℓ κ} :
    {A : Type ℓ} {B : Type κ} (m : Run A) (f : A → Run B) (P : A → Type 0)
    → Returns m P
    → ((a : A) → P a → f a ≡ panics)
    → (m >>= f) ≡ panics
panics-bind (done a) f P h k = k a h
panics-bind panics f P h k = absurd h
panics-bind blocks f P h k = absurd h

-- If the code returns, it does with a result that has the property.
abbrev pub IfReturns {ℓ} : {A : Type ℓ} → Run A → (A → Type 0) → Type 0
IfReturns (done a) P = P a
IfReturns panics P = Unit
IfReturns blocks P = Unit

pub IfReturns-bind {ℓ κ} :
    {A : Type ℓ} {B : Type κ} (m : Run A) (f : A → Run B) (P : A → Type 0) (Q : B → Type 0)
    → IfReturns m P
    → ((a : A) → P a → IfReturns (f a) Q)
    → IfReturns (m >>= f) Q
IfReturns-bind (done a) f P Q h k = k a h
IfReturns-bind panics f P Q h k = tt
IfReturns-bind blocks f P Q h k = tt

-- A step of which nothing is known.
pub IfReturns-any {ℓ} : {A : Type ℓ} (m : Run A) → IfReturns m (λ a. Unit)
IfReturns-any (done a) = tt
IfReturns-any panics = tt
IfReturns-any blocks = tt

pub IfReturns-done {ℓ} :
    {A : Type ℓ} (m : Run A) (P : A → Type 0) (a : A) → m ≡ done a → IfReturns m P → P a
IfReturns-done m P a e h = subst (λ (x : Run _). IfReturns x P) e h

-- Two properties of one run.
pub Returns-both {ℓ} :
    {A : Type ℓ} (m : Run A) (P Q : A → Type 0)
    → Returns m P
    → Returns m Q
    → Returns m (λ a. P a × Q a)
Returns-both (done a) P Q h k = (h, k)
Returns-both panics P Q h k = h
Returns-both blocks P Q h k = h

-- What a run returned, where it returns.
pub Returns-result {ℓ} :
    {A : Type ℓ} (m : Run A) (P : A → Type 0) → Returns m P → (a : A) × (m ≡ done a) × P a
Returns-result (done a) P h = (a, refl, h)
Returns-result panics P h = absurd h
Returns-result blocks P h = absurd h
