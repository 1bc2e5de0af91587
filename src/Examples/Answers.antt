-- ===== src/Examples/Answers.antt =====
-- Rounds and answers of the session of Examples/Quiz.antt.
use mathlib.Core.List.{Memᴰ}
use try_it.RealTime.Scoring.{answer_scored}
use try_it.Prelude.{◌≡◌, refl, some, arith, panics, Returns}
use try_it.Prelude.Int.{pos, negsuc}
use try_it.Prelude.Dict
use try_it.Prelude.Dict.{Dict}
use try_it.Shared.Quiz.{len}
use try_it.RealTime.Leaderboard.{to_answer, answers_to}
use try_it.RealTime.Handler.{process_answer}
use try_it.RealTime.Tracker.{inc_question_idx, new_session, new_quiz_tracker, get_answers}
use try_it.RealTime.Tracker.Progress
use try_it.RealTime.Tracker.Progress.{advance, inc_question_idx_lem, index-advance}
use try_it.RealTime.Tracker.Valid.{IsValid}
use try_it.RealTime.Tracker.Reachable.{Reachable, start, session, moved, Reachable-IsValid}
use try_it.RealTime.Answering.{graded_at, process_answer_before_start}
use try_it.Examples.Quiz.{
  quiz_one, at_question, no_store, alice, deps_at, online, online-up, second_option, known_at,
  tracker_at-IsValid,
}

index-advance_example :
    Dict.get
      (Progress.advance no_store 5
        (new_session no_store (new_quiz_tracker tt) "s" quiz_one)
        "s").tracker
      "s"
    ≡ some (at_question (pos 1))
unfolding new_quiz_tracker Dict.get len
index-advance_example = index-advance no_store 5 (new_quiz_tracker tt) "s" quiz_one refl

process_answer_before_start_example :
    process_answer online no_store alice second_option (deps_at (negsuc 0)) ≡ panics
process_answer_before_start_example =
    process_answer_before_start online no_store alice second_option (deps_at (negsuc 0))
      (at_question (negsuc 0)) 0 (known_at (negsuc 0)) refl

reached : Reachable no_store (new_session no_store (new_quiz_tracker tt) "s" quiz_one)
reached = session (new_quiz_tracker tt) "s" quiz_one (start tt)

Reachable-IsValid_example :
    IsValid
      (inc_question_idx no_store (new_session no_store (new_quiz_tracker tt) "s" quiz_one) "s").1
Reachable-IsValid_example =
    Reachable-IsValid no_store
      (inc_question_idx no_store (new_session no_store (new_quiz_tracker tt) "s" quiz_one) "s").1
      (moved (new_session no_store (new_quiz_tracker tt) "s" quiz_one) "s" reached)

answer_scored_example :
    Returns (process_answer online no_store alice second_option (deps_at (pos 0))) (λ d'.
      Returns (answers_to (pos 0) (get_answers d'.tracker "s")) (λ answers.
        Memᴰ (to_answer "alice" (graded_at (at_question (pos 0)) (pos 0) second_option)) answers))
answer_scored_example =
    answer_scored online online-up no_store alice second_option (deps_at (pos 0))
      (at_question (pos 0)) 0 (refl, refl) (tracker_at-IsValid (pos 0) (omega arith))
      (known_at (pos 0)) refl
