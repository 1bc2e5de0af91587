-- ===== src/RealTime/Leaderboard.antt =====
-- The question to the leaderboard service: `GetLeaderboard` of
-- backend-go/real_time/ws/quiz_tracker.go and the client of
-- backend-go/real_time/leaderboard/leaderboard.go. `post` is the HTTP call.
use try_it.Prelude.{
  ℕ, String, Option, none, some, List, [], ◌∷◌, length, Run, done, or_panic, ◌>>=◌, nat_eq,
  if◌then◌else◌,
}
use try_it.Prelude.Int.{ℤ, pos, negsuc, ◌+ℤ◌, ltb_ℤ, succ_int}
use try_it.Prelude.Dict.{Dict}
use try_it.Prelude.Text.{itoa}
use try_it.Shared.Errors.{Result, ok, err}
use try_it.Shared.Quiz.{UserAnswer}
use try_it.Shared.Scores.{Answer, SessionAnswers, BoardResponse}
use try_it.RealTime.Tracker.{QuizTracker, quiz_of, at_index, get_answers, get_current_question}

-- `failed` is an error of the transport; a reply has a status, and a body if it decodes.
pub data HttpReply : Type 0 where
  failed : String → HttpReply
  reply : ℕ → Option BoardResponse → HttpReply

abbrev decoded : Option BoardResponse → Result BoardResponse
decoded none = err "decode response"
decoded (some b) = ok b

-- `GetResults`
unfoldable pub get_results :
    (SessionAnswers → HttpReply) → String → List Answer → ℤ → Result BoardResponse
get_results post code answers amount =
    elim (post (record { session_code = code; options_amount = amount; answers = answers })) [
      | failed e ↦ err e
      | reply status body ↦ if nat_eq status 200 then decoded body else err "leaderboard error"
    ]

unfoldable pub to_answer : String → UserAnswer → Answer
unfolding itoa
to_answer user ans = record {
  user_id = user;
  correct = ans.correct;
  answered = ans.answered;
  option = itoa (succ_int ans.option);
  timestamp = ans.timestamp;
}

-- The loop over the users of the session.
unfoldable pub answers_to : ℤ → Dict (List UserAnswer) → Run (List Answer)
answers_to qid [] = done []
answers_to qid ((user, given) ∷ rest) = do
  ans ← at_index given qid
  more ← answers_to qid rest
  done (to_answer user ans ∷ more)

-- The question that a board is counted for.
unfoldable pub board_question : ℤ → ℤ
board_question idx = if ltb_ℤ (pos 0) idx then idx +ℤ negsuc 0 else idx

unfoldable pub get_leaderboard :
    {C : Type 0}
    → (SessionAnswers → HttpReply)
    → QuizTracker C
    → String
    → Run (Result BoardResponse)
get_leaderboard post t sid = do
  let qid = board_question (quiz_of t sid).curr_question_idx
  answers ← answers_to qid (get_answers t sid)
  question ← or_panic (get_current_question t sid).1
  done (get_results post sid answers (pos (length question.options)))
