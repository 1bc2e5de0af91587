-- ===== src/RealTime/Consumer.antt =====
-- The consumers of the broker's events, backend-go/real_time/rabbit/question.go and session.go:
-- what one delivery does to the registry and the tracker.
use try_it.Prelude.{
  String, Bool, false, Option, none, some, List, [], ◌∷◌, get_elem?, Run, done, or_panic, ◌>>=◌,
  if◌then◌else◌,
}
use try_it.Prelude.Int.{ℤ, pos, negsuc, ◌+ℤ◌, ltb_ℤ, eq_ℤ}
use try_it.Prelude.Dict
use try_it.Prelude.Dict.{Dict}
use try_it.Prelude.Text.{join}
use try_it.Shared.Errors.{Result, ok, err, ErrorOr}
use try_it.Shared.Quiz.{Quiz, Question, UserAnswer}
use try_it.Shared.Scores.{SessionAnswers, BoardResponse}
use try_it.RealTime.Cache.{Cache}
use try_it.RealTime.Message.{ServerMessage, bare, end}
use try_it.RealTime.Registry.{
  ConnectionContext, Attempt, ConnectionRegistry, register_session, unregister_session,
  broadcast_to_session,
}
use try_it.RealTime.Tracker.{
  QuizTracker, at_index, inc_question_idx, get_current_question, get_quiz_len, get_answers,
  new_session,
}
use try_it.RealTime.Leaderboard.{HttpReply, get_leaderboard}
use try_it.RealTime.Responder.{
  send_game_end, send_next_question_ack, send_error, send_leaderboard, send_question_stat,
  send_question_payload,
}

-- `HandlerDeps` of backend-go/real_time/ws/handler.go.
pub record HandlerDeps (C : Type 0) : Type 0 where
  pub tracker : QuizTracker C
  pub registry : ConnectionRegistry

-- `currQuestionAnswers[userId] = answers[qid-1]` for all users.
unfoldable pub answers_at : ℤ → Dict (List UserAnswer) → Run (Dict UserAnswer)
answers_at i [] = done []
answers_at i ((user, given) ∷ rest) = do
  ans ← at_index given i
  more ← answers_at i rest
  done ((user, ans) ∷ more)

-- `fmt.Sprintf("question_start_%sid", sid)`
unfoldable pub consumer_tag : String → String
consumer_tag sid = join "question_start_" (join sid "id")

-- `CleanupQuestionConsumer` on `QuestionStartedQsTags`, where `cancel` is the broker's answer.
unfoldable pub cleanup_question_consumer :
    (String → ErrorOr) → String → Dict String → ErrorOr × Dict String
cleanup_question_consumer cancel sid tags = elim (Dict.get tags sid) [
  | none ↦ (some "no consumer for session", tags)
  | some tag ↦ elim (cancel tag) [
    | some e ↦ (some "failed to cancel consumer", tags)
    | none ↦ (none, Dict.remove tags sid)
  ]
]

module _ (writes : List Attempt → ConnectionContext → ServerMessage → Bool)
    (post : SessionAnswers → HttpReply) {C : Type 0} (cache : Cache C) where
  -- The two branches on the error of `GetLeaderboard`; `sid` is the responder's session.
  unfoldable pub publish_board :
      String
      → String
      → ℤ
      → QuizTracker C
      → Result BoardResponse
      → ConnectionRegistry
      → Run ConnectionRegistry
  publish_board sid session qid t (err e) r = send_error writes sid r
  publish_board sid session qid t (ok board) r = do
    r1 ← send_leaderboard writes sid board.table r
    answers ← answers_at (qid +ℤ negsuc 0) (get_answers t session)
    send_question_stat writes sid board.popular answers r1

  -- The board of the question before, where there is one.
  unfoldable pub board_step :
      String → String → ℤ → QuizTracker C → ConnectionRegistry → Run ConnectionRegistry
  board_step sid session qid t r =
      if ltb_ℤ (pos 0) qid
      then (do board ← get_leaderboard post t session; publish_board sid session qid t board r)
      else done r

  -- The question itself, and the signal to the participants for the very first one.
  unfoldable pub question_step :
      String → ℤ → ℤ → Option Question → ConnectionRegistry → Run ConnectionRegistry
  question_step sid qid amount question r = do
    q ← or_panic question
    r1 ← send_question_payload writes sid (qid +ℤ pos 1) amount q r
    if eq_ℤ qid (pos 0) then send_next_question_ack writes sid r1 else done r1

  -- One round of the loop of `ConsumeQuestionStart` for the consumer of session `sid`. `key` is the
  -- routing key of the delivery, split at its dots.
  unfoldable pub question_started : String → List String → HandlerDeps C → Run (HandlerDeps C)
  question_started sid key d = do
    session ← or_panic (get_elem? key 1)
    let t = (inc_question_idx cache d.tracker session).1
    let (qid, question) = get_current_question t session
    let amount = pos (get_quiz_len t session)
    r ←
        (if eq_ℤ qid amount then send_game_end writes sid d.registry else (do
          r1 ← board_step sid session qid t d.registry
          question_step sid qid amount question r1))
    done (record { tracker = t; registry = r })

  -- One round of `ConsumeSessionStart`: `none` is a body that does not decode. For a session that
  -- the registry did not have, `ConsumeQuestionStart` notes the tag of its consumer.
  unfoldable pub session_started :
      Option (String × Quiz) → HandlerDeps C → Dict String → Run (HandlerDeps C × Dict String)
  session_started none d tags = done (d, tags)
  session_started (some (sid, quiz)) d tags = do
    (registered, r) ← register_session sid d.registry
    if registered
        then done (
          record { tracker = new_session cache d.tracker sid quiz; registry = r },
          Dict.put tags sid (consumer_tag sid),
        )
        else done (record d { registry = r }, tags)

  -- One round of `ConsumeSessionEnd`; an error of the cleanup is printed and no more.
  unfoldable pub session_ended :
      (String → ErrorOr)
      → Option String
      → HandlerDeps C
      → Dict String
      → Run (HandlerDeps C × Dict String)
  session_ended cancel none d tags = done (d, tags)
  session_ended cancel (some sid) d tags = do
    let tags' = (cleanup_question_consumer cancel sid tags).1
    r1 ← broadcast_to_session writes sid (bare end) false d.registry
    r2 ← unregister_session sid r1
    done (record d { registry = r2 }, tags')
