-- ===== src/Examples/Boards.antt =====
-- Points and tables. The arithmetic is the integers with whole seconds, where the penalty of an
-- answer is 0 or 1, and the store keeps nothing.
use try_it.Prelude.{
  All, ℕ, ℕ, ◌-◌, ◌*◌, ◌/◌, ◌≤◌, ◌≡◌, refl, true, none, some, List, [], ◌∷◌, arith, leb, ltb,
  panics, Returns, if◌then◌else◌, count_of,
}
use try_it.Prelude.Int.{ℤ, pos, negsuc, pos_part, ◌≤ℤ◌}
use try_it.Prelude.Text.{decimal}
use try_it.Shared.Errors.{ok, err}
use try_it.Shared.Scores.{Answer, SessionAnswers, UserScore}
use mathlib.Core.List.{Perm}
use try_it.LeaderBoard.{
  Float64, SortedSets, get_earliest_timestamp, user_point, compute_leader_board, popular_ans,
  sort_user_scores_by_score_desc,
}
use try_it.LeaderBoard.Ieee.{Ieee}
use try_it.LeaderBoard.Earliest.{IsEarliest, get_earliest_timestamp_lem}
use try_it.LeaderBoard.Points.{user_point-bounds, user_point-anti, user_point-ends}
use try_it.LeaderBoard.Sorting.{IsDescending, sort_user_scores_by_score_desc_lem}
use try_it.LeaderBoard.Popular.{total, chose, HasEntry, numbers, popular_ans_lem}
use try_it.LeaderBoard.Compute.{IsOutcome, compute_leader_board_lem}

-- a - b, cut off at 0, on natural numbers that stand for the numbers at least 0.
abbrev pub whole : Float64 ℕ
whole = record {
  of_int = pos_part;
  sub = λ a b. a - b;
  mul = λ a b. a * b;
  div = λ a b. if leb 20 a then 1 else 0;
  lt = ltb;
  leb = leb;
  to_int = pos;
  seconds = λ d. pos_part d / 1000000000;
}

div_step_mono :
    (a b : ℕ) → leb a b ≡ true → leb (if leb 20 a then 1 else 0) (if leb 20 b then 1 else 0) ≡ true
div_step_mono a b h = ground arith

leb_true : (a b : ℕ) → a ≤ b → leb a b ≡ true
leb_true a b h = ground arith

true_leb : (a b : ℕ) → leb a b ≡ true → a ≤ b
true_leb a b h = ground arith

seconds_mono : (a b : ℤ) → a ≤ℤ b → leb (pos_part a / 1000000000) (pos_part b / 1000000000) ≡ true
seconds_mono (pos m) (pos n) h = ground arith
seconds_mono (pos m) (negsuc n) h = ground arith
seconds_mono (negsuc m) (pos n) h = ground arith
seconds_mono (negsuc m) (negsuc n) h = ground arith

whole-Ieee : Ieee whole
whole-Ieee = record {
  leb_trans = λ a b c h k. ground arith;
  lt_leb = λ p h. ground arith;
  leb_int = λ m n h k. refl;
  seconds_mono = λ a b h. seconds_mono a b h;
  div_mono = div_step_mono;
  sub_anti = λ a b h. ground arith;
  mul_mono = λ a b h. ground arith;
  to_int_mono = λ a b h k l. omega (arith, true_leb a b l);
  to_int_of_int = λ n h. refl;
  seconds_0 = refl;
  seconds_20 = refl;
  div_0 = refl;
  div_20 = refl;
  sub_0 = refl;
  sub_1 = refl;
  mul_0 = refl;
  mul_1 = refl;
}

-- A store that gives one old score.
abbrev keeps_one : SortedSets (Unit {0}) ℕ
keeps_one = record {
  incr_batch = λ s key more. (s, none);
  rev_range = λ s key. ok (("alice", 1500) ∷ ("bob", 2000) ∷ []);
}

-- A store that is not there.
abbrev no_sets : SortedSets (Unit {0}) ℕ
no_sets = record {
  incr_batch = λ s key more. (s, some "connection refused");
  rev_range = λ s key. err "connection refused";
}

abbrev first : Answer
first = record {
  user_id = "alice";
  correct = true;
  answered = true;
  option = "2";
  timestamp = pos 7;
}

abbrev late : Answer
late = record {
  user_id = "bob";
  correct = true;
  answered = true;
  option = "2";
  timestamp = pos 30000000007;
}

abbrev two_answers : SessionAnswers
two_answers = record { session_code = "s"; options_amount = pos 2; answers = first ∷ late ∷ [] }

user_point-bounds_example :
    (pos 0 ≤ℤ (user_point whole (pos 7) first).score)
    × ((user_point whole (pos 7) first).score ≤ℤ pos 1000)
user_point-bounds_example = user_point-bounds whole (pos 7) first

user_point-anti_example :
    (user_point whole (pos 7) late).score ≤ℤ (user_point whole (pos 7) first).score
user_point-anti_example =
    user_point-anti whole whole-Ieee (pos 7) first late refl refl (omega arith)

user_point-ends_example :
    ((user_point whole (pos 7) first).score ≡ pos 1000)
    × ((user_point whole (pos 7) late).score ≡ pos 0)
user_point-ends_example =
    user_point-ends whole whole-Ieee (pos 7) first late refl refl (omega arith)

get_earliest_timestamp_lem_example :
    Returns (get_earliest_timestamp (late ∷ first ∷ [])) (λ t. IsEarliest t (late ∷ first ∷ []))
    × (get_earliest_timestamp [] ≡ panics)
get_earliest_timestamp_lem_example = get_earliest_timestamp_lem late (first ∷ [])

abbrev old_scores : List UserScore
old_scores =
    record { user_id = "alice"; total_score = pos 1500 }
    ∷ record { user_id = "bob"; total_score = pos 2000 }
    ∷ []

sort_user_scores_by_score_desc_lem_example :
    Perm old_scores (sort_user_scores_by_score_desc old_scores)
    × IsDescending (sort_user_scores_by_score_desc old_scores)
sort_user_scores_by_score_desc_lem_example = sort_user_scores_by_score_desc_lem old_scores

popular_ans_lem_example :
    (total (popular_ans two_answers).answers "2" ≡ count_of (chose "2") two_answers.answers)
    × All (λ (j : ℕ). HasEntry (popular_ans two_answers).answers (decimal j)) (numbers 1 2)
    × ((popular_ans two_answers).session_code ≡ "s")
popular_ans_lem_example = popular_ans_lem two_answers "2"

compute_leader_board_lem_example :
    Returns
      (compute_leader_board whole keeps_one tt two_answers)
      (IsOutcome whole keeps_one tt two_answers)
    × (compute_leader_board whole keeps_one tt
          (record { session_code = "s"; options_amount = pos 2; answers = [] })
        ≡ panics)
compute_leader_board_lem_example =
    compute_leader_board_lem whole keeps_one tt "s" (pos 2) first (late ∷ [])
