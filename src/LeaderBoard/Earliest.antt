-- ===== src/LeaderBoard/Earliest.antt =====
-- `GetEarliestTimestamp`: the time from which the points of a question count.
use try_it.Prelude.{
  ◌≡◌, refl, sym, ap, subst, ◌⊎◌, inl, inr, Bool, true, false, List, [], ◌∷◌, arith, Returns, All,
  Bool-cases, if◌then◌else◌, panics,
}
use mathlib.Core.List.{Memᴰ}
use try_it.Prelude.Int.{ℤ, ◌≤ℤ◌, ltb_ℤ}
use try_it.Shared.Scores.{Answer}
use try_it.LeaderBoard.{earliest_from, get_earliest_timestamp}

-- A time that one of the answers has, and that none of them is before.
abbrev pub IsEarliest : ℤ → List Answer → Type 0
IsEarliest t given =
    All (λ (a : Answer). t ≤ℤ a.timestamp) given × ((a : Answer) × Memᴰ a given × (a.timestamp ≡ t))

-- What the loop gives from time `t` on.
abbrev IsLeast : ℤ → List Answer → ℤ → Type 0
IsLeast t given r =
    (r ≤ℤ t)
    × All (λ (a : Answer). r ≤ℤ a.timestamp) given
    × ((r ≡ t) ⊎ ((a : Answer) × Memᴰ a given × (a.timestamp ≡ r)))

module _ (t : ℤ) (a : Answer) (rest : List Answer) where
  earliest_from-before :
      ltb_ℤ a.timestamp t ≡ true → earliest_from t (a ∷ rest) ≡ earliest_from a.timestamp rest
  unfolding earliest_from
  earliest_from-before e = ap (λ (b : Bool). earliest_from (if b then a.timestamp else t) rest) e

  earliest_from-after :
      ltb_ℤ a.timestamp t ≡ false → earliest_from t (a ∷ rest) ≡ earliest_from t rest
  unfolding earliest_from
  earliest_from-after e = ap (λ (b : Bool). earliest_from (if b then a.timestamp else t) rest) e

  IsLeast-before :
      (r : ℤ) → ltb_ℤ a.timestamp t ≡ true → IsLeast a.timestamp rest r → IsLeast t (a ∷ rest) r
  IsLeast-before r e (low, all, from) = (
    ground arith,
    (low, all),
    inr (elim from [
      | inl same ↦ (a, Memᴰ.head refl, sym same)
      | inr (c, place, same) ↦ (c, Memᴰ.tail place, same)
    ]),
  )

  IsLeast-after : (r : ℤ) → ltb_ℤ a.timestamp t ≡ false → IsLeast t rest r → IsLeast t (a ∷ rest) r
  IsLeast-after r e (low, all, from) = (
    low,
    (ground arith, all),
    elim from [ inl same ↦ inl same | inr (c, place, same) ↦ inr (c, Memᴰ.tail place, same) ],
  )

earliest_from-IsLeast : (t : ℤ) (given : List Answer) → IsLeast t given (earliest_from t given)
unfolding earliest_from
earliest_from-IsLeast t [] = (omega arith, tt, inl refl)
earliest_from-IsLeast t (a ∷ rest) = elim (Bool-cases (ltb_ℤ a.timestamp t)) [
  | inl e ↦ subst (IsLeast t (a ∷ rest)) (sym (earliest_from-before t a rest e)) (
      IsLeast-before t a rest (earliest_from a.timestamp rest) e
        (earliest_from-IsLeast a.timestamp rest))
  | inr e ↦
      subst (IsLeast t (a ∷ rest)) (sym (earliest_from-after t a rest e))
        (IsLeast-after t a rest (earliest_from t rest) e (earliest_from-IsLeast t rest))
]

-- The time from which the points of a question count is the earliest of the answers' times; with
-- no answer at all the service panics.
pub get_earliest_timestamp_lem :
    (a : Answer) (rest : List Answer)
    → Returns (get_earliest_timestamp (a ∷ rest)) (λ t. IsEarliest t (a ∷ rest))
      × (get_earliest_timestamp [] ≡ panics)
unfolding get_earliest_timestamp
get_earliest_timestamp_lem a rest =
    let (low, all, from) = earliest_from-IsLeast a.timestamp rest in
    (
      (
        (low, all),
        elim from [
          | inl same ↦ (a, Memᴰ.head refl, sym same)
          | inr (c, place, same) ↦ (c, Memᴰ.tail place, same)
        ],
      ),
      refl,
    )
