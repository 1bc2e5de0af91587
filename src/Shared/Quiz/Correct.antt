-- ===== src/Shared/Quiz/Correct.antt =====
-- Which option `GetCorrectOption` gives.
use try_it.Prelude.{
  ℕ, zero, suc, ◌+◌, ◌≡◌, refl, ap, ◌⊎◌, inl, inr, Bool, true, false, some, List, [], ◌∷◌, arith,
  All, get_elem?, Bool-cases, if◌then◌else◌,
}
use try_it.Shared.Quiz.{AnswerOption, Question, empty_option, first_correct, get_correct_option}

-- The options before place `i`.
abbrev pub NoneBefore : ℕ → List AnswerOption → Type 0
NoneBefore zero os = Unit
NoneBefore (suc i) [] = Unit
NoneBefore (suc i) (o ∷ os) = (o.is_correct ≡ false) × NoneBefore i os

-- `r` is the first correct option of `os` with its place, counted from `k`.
abbrev pub IsFirst : ℕ → List AnswerOption → ℕ × AnswerOption → Type 0
IsFirst k os r =
    (i : ℕ) × (r.0 ≡ k + i)
    × (get_elem? os i ≡ some r.1)
    × (r.1.is_correct ≡ true)
    × NoneBefore i os

-- The same option, seen from one place earlier.
IsFirst-suc :
    (k : ℕ) (o : AnswerOption) (os : List AnswerOption) (r : ℕ × AnswerOption)
    → o.is_correct ≡ false
    → IsFirst (suc k) os r
    → IsFirst k (o ∷ os) r
IsFirst-suc k o os r wrong (i, place, found, right, before) =
    (suc i, omega (arith, place), found, right, (wrong, before))

first_correct-nil : (k : ℕ) → first_correct k [] ≡ (0, empty_option)
unfolding first_correct
first_correct-nil k = refl

first_correct-here :
    (k : ℕ) (o : AnswerOption) (os : List AnswerOption)
    → o.is_correct ≡ true
    → first_correct k (o ∷ os) ≡ (k, o)
unfolding first_correct
first_correct-here k o os right =
    ap (λ (b : Bool). if b then (k, o) else first_correct (suc k) os) right

first_correct-later :
    (k : ℕ) (o : AnswerOption) (os : List AnswerOption)
    → o.is_correct ≡ false
    → first_correct k (o ∷ os) ≡ first_correct (suc k) os
unfolding first_correct
first_correct-later k o os wrong =
    ap (λ (b : Bool). if b then (k, o) else first_correct (suc k) os) wrong

first_correct_lem :
    (k : ℕ) (os : List AnswerOption)
    → (All (λ o. o.is_correct ≡ false) os × (first_correct k os ≡ (0, empty_option)))
      ⊎ IsFirst k os (first_correct k os)
first_correct_lem k [] = inl (tt, first_correct-nil k)
first_correct_lem k (o ∷ os) = elim (Bool-cases o.is_correct) [
  | inl right ↦ rw (first_correct-here k o os right) (inr (0, omega arith, refl, right, tt))
  | inr wrong ↦ rw (first_correct-later k o os wrong) (elim (first_correct_lem (suc k) os) [
    | inl (all_wrong, none_found) ↦ inl ((wrong, all_wrong), none_found)
    | inr found ↦ inr (IsFirst-suc k o os (first_correct (suc k) os) wrong found)
  ])
]

-- The option that is taken for the right answer of a question is its first correct one, with its
-- place; a question with no correct option gives place 0 and an empty option.
pub get_correct_option_lem :
    (q : Question)
    → (All (λ o. o.is_correct ≡ false) q.options × (get_correct_option q ≡ (0, empty_option)))
      ⊎ IsFirst 0 q.options (get_correct_option q)
unfolding get_correct_option
get_correct_option_lem q = first_correct_lem 0 q.options
