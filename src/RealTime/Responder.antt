-- ===== src/RealTime/Responder.antt =====
-- backend-go/real_time/ws/responses.go: the messages to the people of a session.
use try_it.Prelude.{String, Bool, false, none, some, List, [], ◌∷◌, Run, done, ◌>>=◌, if◌then◌else◌}
use try_it.Prelude.Int.{ℤ}
use try_it.Prelude.Dict
use try_it.Prelude.Dict.{Dict}
use try_it.Shared.Quiz.{Question, UserAnswer}
use try_it.Shared.Scores.{ScoreTable, PopularAns}
use try_it.RealTime.Message.{
  ServerMessage, question, leaderboard, question_stat, end, next_question, error, table, stat,
  image, bare,
}
use try_it.RealTime.Registry.{
  ConnectionContext, Attempt, ConnectionRegistry, is_admin, get_connections, send_message,
  broadcast_to_session, send_to_admin,
}

-- `questionAnswers[user].Correct`
abbrev pub correct_of : Dict UserAnswer → String → Bool
correct_of answers user = elim (Dict.get answers user) [ none ↦ false | some a ↦ a.correct ]

unfoldable pub stat_message : PopularAns → Bool → ServerMessage
stat_message popular right = record (bare question_stat) { correct = right; payload = stat popular }

unfoldable pub question_message : ℤ → ℤ → Question → ServerMessage
question_message qid amount q = record {
  kind = question;
  question_idx = qid;
  questions_amount = amount;
  text = q.text;
  options = q.options;
  correct = false;
  payload = image q.image_url;
}

module _ (writes : List Attempt → ConnectionContext → ServerMessage → Bool) where
  -- The loop of `SendQuestionStat` over the connections.
  unfoldable pub send_stats :
      PopularAns
      → Dict UserAnswer
      → List ConnectionContext
      → ConnectionRegistry
      → Run ConnectionRegistry
  send_stats popular answers [] r = done r
  send_stats popular answers (c ∷ cs) r =
      (if is_admin c
        then done r
        else send_message writes (stat_message popular (correct_of answers c.user_id)) (c ∷ []) r)
      >>= send_stats popular answers cs

module _ (writes : List Attempt → ConnectionContext → ServerMessage → Bool) (sid : String) where
  unfoldable pub send_game_end : ConnectionRegistry → Run ConnectionRegistry
  send_game_end = broadcast_to_session writes sid (bare end) false

  unfoldable pub send_next_question_ack : ConnectionRegistry → Run ConnectionRegistry
  send_next_question_ack = broadcast_to_session writes sid (bare next_question) false

  unfoldable pub send_error : ConnectionRegistry → Run ConnectionRegistry
  send_error = broadcast_to_session writes sid (bare error) false

  unfoldable pub send_leaderboard : ScoreTable → ConnectionRegistry → Run ConnectionRegistry
  send_leaderboard lb = send_to_admin writes sid (record (bare leaderboard) { payload = table lb })

  unfoldable pub send_question_stat :
      PopularAns → Dict UserAnswer → ConnectionRegistry → Run ConnectionRegistry
  send_question_stat popular answers r = do
    (connections, r1) ← get_connections sid r
    send_stats writes popular answers connections r1

  unfoldable pub send_question_payload :
      ℤ → ℤ → Question → ConnectionRegistry → Run ConnectionRegistry
  send_question_payload qid amount q = send_to_admin writes sid (question_message qid amount q)
