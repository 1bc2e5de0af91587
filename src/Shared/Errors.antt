-- ===== src/Shared/Errors.antt =====
-- Go's `error` beside a value: the text of the error where there is one.
use try_it.Prelude.{◌≡◌, refl, ◌⊎◌, inl, inr, String, Option}

pub data Result {ℓ} (A : Type ℓ) : Type ℓ where
  ok : A → Result A
  err : String → Result A

-- A function that returns nothing but an error; `none` is nil.
abbrev pub ErrorOr : Type 0
ErrorOr = Option String

pub Result-cases {ℓ} :
    {A : Type ℓ} (x : Result A) → ((a : A) × (x ≡ ok a)) ⊎ ((e : String) × (x ≡ err e))
Result-cases (ok a) = inl (a, refl)
Result-cases (err e) = inr (e, refl)
