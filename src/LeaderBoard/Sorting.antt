-- ===== src/LeaderBoard/Sorting.antt =====
-- `SortUserScoresByScoreDesc`: the same users with the same scores, the highest score first.
use try_it.Prelude.{
  ◌≡◌, sym, subst, inl, inr, Bool, true, false, List, [], ◌∷◌, ◌++◌, arith, All, Bool-cases,
  if◌then◌else◌, ap,
}
use mathlib.Core.List.{Perm, perm_middle}
use mathlib.Core.List.Perm
use mathlib.Core.List.{append-nil}
use try_it.Prelude.Int.{ℤ, ◌≤ℤ◌, ltb_ℤ}
use try_it.Shared.Scores.{UserScore}
use try_it.LeaderBoard.{insert_desc, insert_all, sort_user_scores_by_score_desc}

-- No user before one with a higher score.
abbrev pub IsDescending : List UserScore → Type 0
IsDescending [] = Unit
IsDescending (u ∷ us) = All (λ (v : UserScore). v.total_score ≤ℤ u.total_score) us × IsDescending us

All-weaken :
    (x y : ℤ) (us : List UserScore)
    → x ≤ℤ y
    → All (λ (v : UserScore). v.total_score ≤ℤ x) us
    → All (λ (v : UserScore). v.total_score ≤ℤ y) us
All-weaken x y [] h all = tt
All-weaken x y (u ∷ us) h (low, all) = (ground arith, All-weaken x y us h all)

module _ (u v : UserScore) (vs : List UserScore) where
  insert_desc-front : ltb_ℤ v.total_score u.total_score ≡ true → insert_desc u (v ∷ vs) ≡ u ∷ v ∷ vs
  unfolding insert_desc
  insert_desc-front e = ap (λ (b : Bool). if b then u ∷ v ∷ vs else v ∷ insert_desc u vs) e

  insert_desc-back :
      ltb_ℤ v.total_score u.total_score ≡ false → insert_desc u (v ∷ vs) ≡ v ∷ insert_desc u vs
  unfolding insert_desc
  insert_desc-back e = ap (λ (b : Bool). if b then u ∷ v ∷ vs else v ∷ insert_desc u vs) e

insert_desc-Perm : (u : UserScore) (vs : List UserScore) → Perm (u ∷ vs) (insert_desc u vs)
unfolding insert_desc
insert_desc-Perm u [] = Perm.refl (u ∷ [])
insert_desc-Perm u (v ∷ vs) = elim (Bool-cases (ltb_ℤ v.total_score u.total_score)) [
  | inl e ↦ subst (Perm (u ∷ v ∷ vs)) (sym (insert_desc-front u v vs e)) (Perm.refl (u ∷ v ∷ vs))
  | inr e ↦
      subst (Perm (u ∷ v ∷ vs)) (sym (insert_desc-back u v vs e))
        (Perm.trans (Perm.swap v u vs) (Perm.cons v (insert_desc-Perm u vs)))
]

insert_desc-All :
    (P : UserScore → Type 0) (u : UserScore) (vs : List UserScore)
    → P u
    → All P vs
    → All P (insert_desc u vs)
unfolding insert_desc
insert_desc-All P u [] h all = (h, tt)
insert_desc-All P u (v ∷ vs) h (hv, all) = elim (Bool-cases (ltb_ℤ v.total_score u.total_score)) [
  | inl e ↦ subst (All P) (sym (insert_desc-front u v vs e)) (h, (hv, all))
  | inr e ↦ subst (All P) (sym (insert_desc-back u v vs e)) (hv, insert_desc-All P u vs h all)
]

insert_desc-IsDescending :
    (u : UserScore) (vs : List UserScore) → IsDescending vs → IsDescending (insert_desc u vs)
unfolding insert_desc
insert_desc-IsDescending u [] h = (tt, tt)
insert_desc-IsDescending u (v ∷ vs) (all, h) =
    elim (Bool-cases (ltb_ℤ v.total_score u.total_score)) [
      | inl e ↦
          let low : v.total_score ≤ℤ u.total_score = ground arith in
          subst IsDescending (sym (insert_desc-front u v vs e))
            ((low, All-weaken v.total_score u.total_score vs low all), (all, h))
      | inr e ↦ subst IsDescending (sym (insert_desc-back u v vs e)) (
        insert_desc-All (λ w. w.total_score ≤ℤ v.total_score) u vs (ground arith) all,
        insert_desc-IsDescending u vs h,
      )
    ]

insert_all-Perm : (sorted us : List UserScore) → Perm (us ++ sorted) (insert_all sorted us)
unfolding insert_all
insert_all-Perm sorted [] = Perm.refl sorted
insert_all-Perm sorted (u ∷ us) = Perm.trans (Perm.symm (perm_middle us sorted)) (
    Perm.trans (Perm.append (Perm.refl us) (insert_desc-Perm u sorted))
      (insert_all-Perm (insert_desc u sorted) us))

insert_all-IsDescending :
    (sorted us : List UserScore) → IsDescending sorted → IsDescending (insert_all sorted us)
unfolding insert_all
insert_all-IsDescending sorted [] h = h
insert_all-IsDescending sorted (u ∷ us) h =
    insert_all-IsDescending (insert_desc u sorted) us (insert_desc-IsDescending u sorted h)

-- The table has the users and scores that were loaded, each as often, in the order of the scores,
-- the highest first.
pub sort_user_scores_by_score_desc_lem :
    (scores : List UserScore)
    → Perm scores (sort_user_scores_by_score_desc scores)
      × IsDescending (sort_user_scores_by_score_desc scores)
unfolding sort_user_scores_by_score_desc
sort_user_scores_by_score_desc_lem scores = (
  subst (λ (us : List UserScore). Perm us (insert_all [] scores)) (append-nil scores)
      (insert_all-Perm [] scores),
  insert_all-IsDescending [] scores tt,
)
