-- ===== src/LeaderBoard/Popular.antt =====
-- `PopularAns`: how often each option was chosen.
use try_it.Prelude.{
  ℕ, zero, suc, ◌-◌, ◌^◌, All, ◌+◌, ◌≤◌, ◌<◌, ◌≡◌, refl, sym, ap, subst, ◌⊎◌, inl, inr, String,
  Bool, ◌&&◌, some, List, [], ◌∷◌, arith, count_of, Bool-cases, nat_eq, ◌≢◌, eq_iff, if◌then◌else◌,
  ◌==◌, ◌∙◌,
}
use try_it.Prelude.Int.{ℤ, pos, negsuc, pos_part, eq_ℤ}
use try_it.Prelude.Dict
use try_it.Prelude.Dict.{Dict, get-put, get-nil}
use try_it.Prelude.Text.{decimal}
use try_it.Shared.Scores.{Answer, SessionAnswers}
use try_it.LeaderBoard.{rounds_of, zero_options, count_answers, or_none, popular_ans}

-- The answers that chose this option.
abbrev pub chose : String → Answer → Bool
chose k a = a.answered && (a.option == k)

-- What is read for an option; Go gives 0 for a missing entry.
abbrev pub total : Dict ℕ → String → ℕ
total m k = or_none (Dict.get m k)

counted : Answer → Dict ℕ → Dict ℕ
counted a m = if a.answered then Dict.put m a.option (or_none (Dict.get m a.option) + 1) else m

counted-total :
    (a : Answer) (m : Dict ℕ) (k : String)
    → total (counted a m) k ≡ total m k + (if chose k a then 1 else 0)
unfolding counted
counted-total a m k =
    ground (arith, get-put m a.option k (or_none (Dict.get m a.option) + 1), eq_iff a.option k)

count_answers-total :
    (given : List Answer) (m : Dict ℕ) (k : String)
    → total (count_answers given m) k ≡ total m k + count_of (chose k) given
unfolding count_answers counted
count_answers-total [] m k = omega arith
count_answers-total (a ∷ rest) m k =
    count_answers-total rest (counted a m) k ∙ ground (arith, counted-total a m k)

get-nil-total : (k : String) → total [] k ≡ 0
get-nil-total k = rw (get-nil k) refl

zero_options-total :
    (i n : ℕ) (m : Dict ℕ) (k : String) → total m k ≡ 0 → total (zero_options i n m) k ≡ 0
unfolding zero_options
zero_options-total i zero m k h = h
zero_options-total i (suc n) m k h =
    zero_options-total (suc i) n (Dict.put m (decimal i) 0) k
      (ground (arith, get-put m (decimal i) k 0, eq_iff (decimal i) k))

-- An entry that is there stays there.
abbrev pub HasEntry : Dict ℕ → String → Type 0
HasEntry m k = (n : ℕ) × (Dict.get m k ≡ some n)

put-HasEntry :
    (m : Dict ℕ) (j k : String) (v : ℕ) → (j ≡ k) ⊎ HasEntry m k → HasEntry (Dict.put m j v) k
put-HasEntry m j k v h = elim (Bool-cases (j == k)) [
  | inl e ↦ (v, rw (get-put, e) refl)
  | inr e ↦ elim h [
    | inl same ↦ absurd (ground (arith, eq_iff j k))
    | inr (n, there) ↦ (n, rw (get-put, e) there)
  ]
]

counted-HasEntry : (a : Answer) (m : Dict ℕ) (k : String) → HasEntry m k → HasEntry (counted a m) k
unfolding counted
counted-HasEntry a m k h = elim (Bool-cases a.answered) [
  | inl e ↦
      subst
        (λ (b : Bool).
          HasEntry (if b then Dict.put m a.option (or_none (Dict.get m a.option) + 1) else m) k)
        (sym e) (put-HasEntry m a.option k (or_none (Dict.get m a.option) + 1) (inr h))
  | inr e ↦
      subst
        (λ (b : Bool).
          HasEntry (if b then Dict.put m a.option (or_none (Dict.get m a.option) + 1) else m) k)
        (sym e) h
]

count_answers-HasEntry :
    (given : List Answer) (m : Dict ℕ) (k : String)
    → HasEntry m k
    → HasEntry (count_answers given m) k
unfolding count_answers counted
count_answers-HasEntry [] m k h = h
count_answers-HasEntry (a ∷ rest) m k h =
    count_answers-HasEntry rest (counted a m) k (counted-HasEntry a m k h)

zero_options-HasEntry :
    (i n : ℕ) (m : Dict ℕ) (k : String)
    → HasEntry m k ⊎ ((j : ℕ) × (i ≤ j) × (j < i + n) × (decimal j ≡ k))
    → HasEntry (zero_options i n m) k
unfolding zero_options
zero_options-HasEntry i zero m k (inl h) = h
zero_options-HasEntry i zero m k (inr (j, low, high, e)) = absurd (omega arith)
zero_options-HasEntry i (suc n) m k (inl h) =
    zero_options-HasEntry (suc i) n (Dict.put m (decimal i) 0) k
      (inl (put-HasEntry m (decimal i) k 0 (inr h)))
zero_options-HasEntry i (suc n) m k (inr (j, low, high, e)) =
    zero_options-HasEntry (suc i) n (Dict.put m (decimal i) 0) k (elim (Bool-cases (nat_eq i j)) [
      | inl e' ↦
          let same : i ≡ j = ground arith in
          inl (put-HasEntry m (decimal i) k 0 (inl (ap decimal same ∙ e)))
      | inr e' ↦ let differ : i ≢ j = ground arith in inr (j, omega arith, omega arith, e)
    ])

-- The numbers of the options that have an entry even if nobody chose them: up to the amount, but none
-- where the amount is the largest `int`, since one more is negative.
abbrev pub listed : ℤ → ℕ
listed amount = if eq_ℤ amount (pos (2 ^ 63 - 1)) then 0 else pos_part amount

rounds_of-listed : (amount : ℤ) → rounds_of amount ≡ listed amount
rounds_of-listed (pos n) = ground arith
rounds_of-listed (negsuc n) = ground arith

-- `n` numbers from `i` on.
abbrev pub numbers : ℕ → ℕ → List ℕ
numbers i zero = []
numbers i (suc n) = i ∷ numbers (suc i) n

All-numbers : (P : ℕ → Type 0) (i n : ℕ) → ((j : ℕ) → i ≤ j → j < i + n → P j) → All P (numbers i n)
All-numbers P i zero h = tt
All-numbers P i (suc n) h = (
  h i (omega arith) (omega arith),
  All-numbers P (suc i) n (λ j low high. h j (omega arith) (omega arith)),
)

-- For every request and every text: what is read under it is the number of the given answers that chose
-- it; "1" to the amount of options have an entry even if nobody chose them, unless the amount is the
-- largest `int`, where none is made for that alone; and the session is the one of the request.
pub popular_ans_lem :
    (ans : SessionAnswers) (k : String)
    → (total (popular_ans ans).answers k ≡ count_of (chose k) ans.answers)
      × All
          (λ (j : ℕ). HasEntry (popular_ans ans).answers (decimal j))
          (numbers 1 (listed ans.options_amount))
      × ((popular_ans ans).session_code ≡ ans.session_code)
unfolding popular_ans
popular_ans_lem ans k =
    let n = rounds_of ans.options_amount in
    let start = zero_options 1 n [] in
    let zero_there = zero_options-total 1 n [] k (get-nil-total k) in
    (
      count_answers-total ans.answers start k ∙ omega (arith, zero_there),
      subst
          (λ (l : ℕ).
            All (λ (j : ℕ). HasEntry (count_answers ans.answers start) (decimal j)) (numbers 1 l))
          (rounds_of-listed ans.options_amount)
          (All-numbers _ 1 n (λ j low high.
            count_answers-HasEntry ans.answers start (decimal j)
              (zero_options-HasEntry 1 n [] (decimal j) (inr (j, low, high, refl))))),
      refl,
    )
