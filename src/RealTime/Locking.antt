-- ===== src/RealTime/Locking.antt =====
-- The lock of the registry across what the consumers of backend-go/real_time/rabbit/question.go send.
use try_it.Prelude.{
  refl, inl, inr, String, Bool, false, Option, List, [], ◌∷◌, done, or_panic, IfReturns,
  IfReturns-bind, IfReturns-any, Bool-cases, if◌then◌else◌,
}
use try_it.Prelude.Int.{ℤ, pos, negsuc, ◌+ℤ◌, eq_ℤ, ltb_ℤ}
use try_it.Prelude.Dict.{Dict}
use try_it.Shared.Errors.{Result, ok, err}
use try_it.Shared.Quiz.{Question, UserAnswer}
use try_it.Shared.Scores.{SessionAnswers, BoardResponse, PopularAns}
use try_it.RealTime.Cache.{Cache}
use try_it.RealTime.Message.{ServerMessage, bare, next_question, error, leaderboard, table}
use try_it.RealTime.Registry.{
  ConnectionContext, Attempt, ConnectionRegistry, is_admin, get_connections, send_message,
  send_to_admin,
}
use try_it.RealTime.Registry.Locks.{
  SameLock, SameLock-trans, SameLock-bind, IfReturns-mono, get_connections-SameLock,
  send_message-SameLock, broadcast_to_session-SameLock, send_to_admin-SameLock,
}
use try_it.RealTime.Tracker.{QuizTracker, get_answers}
use try_it.RealTime.Leaderboard.{HttpReply, get_leaderboard}
use try_it.RealTime.Responder.{
  correct_of, stat_message, question_message, send_next_question_ack, send_error, send_leaderboard,
  send_stats, send_question_stat, send_question_payload,
}
use try_it.RealTime.Consumer.{answers_at, publish_board, board_step, question_step}

module _ (writes : List Attempt → ConnectionContext → ServerMessage → Bool) (sid : String) where
  send_stats-SameLock :
      (popular : PopularAns) (answers : Dict UserAnswer) (cs : List ConnectionContext)
      (r : ConnectionRegistry)
      → IfReturns (send_stats writes popular answers cs r) (SameLock r)
  unfolding send_stats
  send_stats-SameLock popular answers [] r = (refl, refl)
  send_stats-SameLock popular answers (c ∷ cs) r =
      SameLock-bind r
        (if is_admin c
          then done r
          else send_message writes (stat_message popular (correct_of answers c.user_id)) (c ∷ []) r)
        (send_stats writes popular answers cs)
        (elim (Bool-cases (is_admin c)) [
          | inl e ↦ rw e (refl, refl)
          | inr e ↦ rw e (
              send_message-SameLock writes (stat_message popular (correct_of answers c.user_id))
                (c ∷ []) r)
        ])
        (λ r1. send_stats-SameLock popular answers cs r1)

  send_question_stat-SameLock :
      (popular : PopularAns) (answers : Dict UserAnswer) (r : ConnectionRegistry)
      → IfReturns (send_question_stat writes sid popular answers r) (SameLock r)
  unfolding send_question_stat
  send_question_stat-SameLock popular answers r =
      IfReturns-bind (get_connections sid r) _ (λ out. SameLock r out.1) (SameLock r)
        (get_connections-SameLock sid r)
        (λ (cs, r1) a.
          IfReturns-mono (send_stats writes popular answers cs r1) (SameLock r1) (SameLock r)
            (send_stats-SameLock popular answers cs r1) (λ r2 b. SameLock-trans r r1 r2 a b))

  module _ (post : SessionAnswers → HttpReply) {C : Type 0} (cache : Cache C)
      (t : QuizTracker C) where
    publish_board-SameLock :
        (session : String) (qid : ℤ) (res : Result BoardResponse) (r : ConnectionRegistry)
        → IfReturns (publish_board writes post cache sid session qid t res r) (SameLock r)
    unfolding publish_board send_error send_leaderboard
    publish_board-SameLock session qid (err e) r =
        broadcast_to_session-SameLock writes sid (bare error) false r
    publish_board-SameLock session qid (ok board) r =
        SameLock-bind r _ _
          (send_to_admin-SameLock writes sid
            (record (bare leaderboard) { payload = table board.table }) r)
          (λ r1.
            IfReturns-bind (answers_at (qid +ℤ negsuc 0) (get_answers t session)) _ (λ x. Unit)
              (SameLock r1) (IfReturns-any (answers_at (qid +ℤ negsuc 0) (get_answers t session)))
              (λ answers h. send_question_stat-SameLock board.popular answers r1))

    pub board_step-SameLock :
        (session : String) (qid : ℤ) (r : ConnectionRegistry)
        → IfReturns (board_step writes post cache sid session qid t r) (SameLock r)
    unfolding board_step
    board_step-SameLock session qid r = elim (Bool-cases (ltb_ℤ (pos 0) qid)) [
      | inr e ↦ rw e (refl, refl)
      | inl e ↦ rw e (
          IfReturns-bind (get_leaderboard post t session) _ (λ x. Unit) (SameLock r)
            (IfReturns-any (get_leaderboard post t session))
            (λ board h. publish_board-SameLock session qid board r))
    ]

    pub question_step-SameLock :
        (qid amount : ℤ) (question : Option Question) (r : ConnectionRegistry)
        → IfReturns (question_step writes post cache sid qid amount question r) (SameLock r)
    unfolding question_step send_question_payload send_next_question_ack
    question_step-SameLock qid amount question r =
        IfReturns-bind (or_panic question) _ (λ x. Unit) (SameLock r)
          (IfReturns-any (or_panic question))
          (λ q h.
            SameLock-bind r (send_to_admin writes sid (question_message (qid +ℤ pos 1) amount q) r)
              _ (send_to_admin-SameLock writes sid (question_message (qid +ℤ pos 1) amount q) r)
              (λ r1. elim (Bool-cases (eq_ℤ qid (pos 0))) [
                | inl e ↦
                    rw e (broadcast_to_session-SameLock writes sid (bare next_question) false r1)
                | inr e ↦ rw e (refl, refl)
              ]))
