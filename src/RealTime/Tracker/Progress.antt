-- ===== src/RealTime/Tracker/Progress.antt =====
-- How the question index of a session moves.
use Prim.Native.Nat.{min}
use try_it.Prelude.{ℕ, zero, suc, String, ◌≡◌, refl, none, some, arith, eq_refl, ltb, if◌then◌else◌}
use try_it.Prelude.Int.{pos, negsuc, ◌+ℤ◌, sub_ℕ}
use try_it.Prelude.Dict
use try_it.Prelude.Dict.{Dict, get-put}
use try_it.Shared.Quiz.{OngoingQuiz, Quiz, len}
use try_it.RealTime.Cache.{Cache}
use try_it.RealTime.Tracker.{QuizTracker, inc_from, inc_question_idx, new_session}

module _ {C : Type 0} (cache : Cache C) where
  -- The tracker after `n` triggers of the next question.
  unfoldable pub advance : ℕ → QuizTracker C → String → QuizTracker C
  advance zero t sid = t
  advance (suc n) t sid = (inc_question_idx cache (advance n t sid) sid).1

  inc_from_lem :
      (t : QuizTracker C) (sid : String) (q : OngoingQuiz) (i : ℕ)
      → Dict.get t.tracker sid ≡ some q
      → q.curr_question_idx ≡ sub_ℕ i 1
      → let r = inc_from cache t sid q in
        (r.0 ≡ ltb i (len q.quiz_data))
        × (Dict.get r.1.tracker sid
            ≡ some (if ltb i (len q.quiz_data) then record q { curr_question_idx = pos i } else q))
        × (r.1.answers ≡ t.answers)
  unfolding inc_from
  inc_from_lem t sid q i known idx =
      let next : q.curr_question_idx +ℤ pos 1 ≡ pos i = rw idx (ground arith) in
      rw next (
        ground (
          arith,
          known,
          eq_refl sid,
          get-put t.tracker sid sid (record q { curr_question_idx = pos i }),
        ))

  -- One trigger for a session whose index is `i - 1`: if `i` names a question the index becomes `i`
  -- and the result is true, otherwise the quiz is as it was and the result is false. The answers
  -- are as they were.
  pub inc_question_idx_lem :
      (t : QuizTracker C) (sid : String) (q : OngoingQuiz) (i : ℕ)
      → Dict.get t.tracker sid ≡ some q
      → q.curr_question_idx ≡ sub_ℕ i 1
      → let r = inc_question_idx cache t sid in
        (r.0 ≡ ltb i (len q.quiz_data))
        × (Dict.get r.1.tracker sid
            ≡ some (if ltb i (len q.quiz_data) then record q { curr_question_idx = pos i } else q))
        × (r.1.answers ≡ t.answers)
  unfolding inc_question_idx
  inc_question_idx_lem t sid q i known idx =
      rw (known, inc_question_idx) (inc_from_lem t sid q i known idx)

  -- A session that starts at -1: after `n` triggers the index is `min n len - 1`, so it stops at
  -- the last question and never reaches the number of questions.
  pub index-advance :
      (n : ℕ) (t : QuizTracker C) (sid : String) (z : Quiz)
      → Dict.get t.tracker sid ≡ none
      → Dict.get (advance n (new_session cache t sid z) sid).tracker sid
        ≡ some (record { curr_question_idx = sub_ℕ (min n (len z)) 1; quiz_data = z })
  unfolding advance new_session
  index-advance zero t sid z new =
      rw (new, new_session)
        (ground (
          arith,
          eq_refl sid,
          get-put t.tracker sid sid (record { curr_question_idx = negsuc 0; quiz_data = z }),
        ))
  index-advance (suc n) t sid z new =
      let before = index-advance n t sid z new in
      let now =
        inc_question_idx_lem (advance n (new_session cache t sid z) sid) sid _ (min n (len z))
          before refl in
      rw now.1 (ground arith)
