-- ===== src/RealTime/Running/Sound.antt =====
-- What every handler and consumer of backend-go/real_time keeps, on any network: a valid tracker and a
-- free lock.
use try_it.Prelude.{
  ℕ, ◌≡◌, ◌∙◌, refl, inl, inr, String, Bool, true, false, Option, none, some, List, Run, done,
  panics, blocks, ◌>>=◌, or_panic, IfReturns, IfReturns-bind, IfReturns-any, Bool-cases,
  Option-cases, get_elem?, if◌then◌else◌, ◌==◌,
}
use try_it.Prelude.Int.{ℤ, pos, eq_ℤ}
use try_it.Prelude.Dict.{Dict}
use try_it.Shared.Errors.{Result, ErrorOr, Result-cases}
use try_it.Shared.Token.{UserToken, role_admin, role_participant}
use try_it.Shared.Quiz.{Quiz, AnswerOption}
use try_it.Shared.Scores.{SessionAnswers}
use try_it.RealTime.Cache.{Cache}
use try_it.RealTime.Message.{
  ServerMessage, ClientMessage, bare, end, next_question, user_answered, user,
}
use try_it.RealTime.Registry.{
  ConnectionContext, Attempt, ConnectionRegistry, register_session, unregister_session,
  register_connection, send_to_admin, broadcast_to_session,
}
use try_it.RealTime.Registry.Delivery.{IsFree}
use try_it.RealTime.Registry.Locks.{
  SameLock, SameLock-trans, SameLock-bind, register_session-SameLock, unregister_session-SameLock,
  register_connection-SameLock, broadcast_to_session-SameLock, send_to_admin-SameLock,
}
use try_it.RealTime.Locking.{board_step-SameLock, question_step-SameLock}
use try_it.RealTime.Tracker.{
  QuizTracker, add_participant, record_answer, inc_question_idx, get_current_question, get_quiz_len,
  new_session, get_correct_option_of,
}
use try_it.RealTime.Tracker.Valid.{IsValid, inc_question_idx-IsValid, new_session-IsValid}
use try_it.RealTime.Tracker.Reachable.{add_participant-IsValid, record_answer-IsValid}
use try_it.RealTime.Leaderboard.{HttpReply}
use try_it.RealTime.Responder.{send_game_end, send_next_question_ack}
use try_it.RealTime.Consumer.{
  HandlerDeps, board_step, question_step, question_started, session_started, session_ended,
}
use try_it.RealTime.Handler.{
  admitted, join_session, web_socket_handler, answer_graded, process_answer, handle_message,
}

-- What returns has the property, if every result has it.
IfReturns-all :
    {A : Type 0} (m : Run A) (P : A → Type 0) → ((a : A) → m ≡ done a → P a) → IfReturns m P
IfReturns-all (done a) P h = h a refl
IfReturns-all panics P h = tt
IfReturns-all blocks P h = tt

-- The tracker is valid and nobody holds the lock of the registry.
pub record IsSound {C : Type 0} (d : HandlerDeps C) : Type 0 where
  pub valid : IsValid d.tracker
  pub free : IsFree d.registry

pub sound :
    {C : Type 0} (d : HandlerDeps C) (t : QuizTracker C) (r : ConnectionRegistry)
    → IsSound d
    → IsValid t
    → SameLock d.registry r
    → IsSound (record { tracker = t; registry = r })
sound d t r s v (readers, writer) = record {
  valid = v;
  free = (readers ∙ s.free.0, writer ∙ s.free.1);
}

module _ {C : Type 0} (cache : Cache C) where
  admitted-IsSound :
      (token : UserToken) (d : HandlerDeps C) (out : ErrorOr × ConnectionRegistry)
      → IsSound d
      → SameLock d.registry out.1
      → IfReturns (admitted token d out) (λ res. IsSound res.1)
  unfolding admitted
  admitted-IsSound token d (some text, r) s a = sound d d.tracker r s s.valid a
  admitted-IsSound token d (none, r) s a =
      IfReturns-bind
        (if token.user_type == role_participant
          then add_participant d.tracker token.session_id token.user_id
          else done d.tracker)
        _ IsValid (λ res. IsSound res.1)
        (elim (Bool-cases (token.user_type == role_participant)) [
          | inl e ↦ rw e (
              IfReturns-all (add_participant d.tracker token.session_id token.user_id) IsValid
                (λ t h.
                  add_participant-IsValid cache d.tracker t token.session_id token.user_id s.valid
                    h))
          | inr e ↦ rw e s.valid
        ])
        (λ t v. sound d t r s v a)

  join_session-IsSound :
      (token : UserToken) (socket : ℕ) (d : HandlerDeps C)
      → IsSound d
      → IfReturns (join_session token socket d) (λ res. IsSound res.1)
  unfolding join_session
  join_session-IsSound token socket d s =
      let ctx : ConnectionContext = record {
        conn = some socket;
        user_id = token.user_id;
        session_id = token.session_id;
        role = token.user_type;
      } in
      IfReturns-bind (register_session token.session_id d.registry) _
        (λ out. SameLock d.registry out.1) (λ res. IsSound res.1)
        (register_session-SameLock token.session_id d.registry)
        (λ (fresh, r1) a.
          IfReturns-bind (register_connection ctx r1) (admitted token d) (λ out. SameLock r1 out.1)
            (λ res. IsSound res.1) (register_connection-SameLock ctx r1)
            (λ out b. admitted-IsSound token d out s (SameLock-trans d.registry r1 out.1 a b)))

  pub web_socket_handler-IsSound :
      (parse : String → Result UserToken) (upgrade : Option ℕ) (token_string : String)
      (d : HandlerDeps C)
      → IsSound d
      → IfReturns (web_socket_handler parse upgrade token_string d) (λ res. IsSound res.1)
  unfolding web_socket_handler
  web_socket_handler-IsSound parse upgrade token_string d s =
      elim (Bool-cases (token_string == "")) [
        | inl e ↦ rw e s
        | inr e ↦ rw e (elim (Result-cases (parse token_string)) [
          | inr (x, f) ↦ rw f s
          | inl (token, f) ↦ rw f (elim (Option-cases upgrade) [
            | inl g ↦ rw g s
            | inr (socket, g) ↦ rw g (join_session-IsSound token socket d s)
          ])
        ])
      ]

module _ (writes : List Attempt → ConnectionContext → ServerMessage → Bool) {C : Type 0}
    (cache : Cache C) where
  answer_graded-IsSound :
      (ctx : ConnectionContext) (msg : ClientMessage) (found : ℤ × Option AnswerOption)
      (d : HandlerDeps C)
      → IsSound d
      → IfReturns (answer_graded writes cache ctx msg found d) IsSound
  unfolding answer_graded
  answer_graded-IsSound ctx msg (correct_idx, none) d s = s
  answer_graded-IsSound ctx msg (correct_idx, some opt) d s =
      IfReturns-bind
        (record_answer cache d.tracker ctx.session_id ctx.user_id (record {
          answered = true;
          option = msg.option;
          correct = eq_ℤ msg.option correct_idx;
          timestamp = msg.timestamp;
        }))
        _ IsValid IsSound
        (IfReturns-all _ IsValid
          (λ t h. record_answer-IsValid cache d.tracker t ctx.session_id ctx.user_id _ s.valid h))
        (λ t v.
          IfReturns-bind
            (send_to_admin writes ctx.session_id
              (record (bare user_answered) { payload = user ctx.user_id }) d.registry)
            _ (SameLock d.registry) IsSound
            (send_to_admin-SameLock writes ctx.session_id
              (record (bare user_answered) { payload = user ctx.user_id }) d.registry)
            (λ r a. sound d t r s v a))

  pub handle_message-IsSound :
      (ctx : ConnectionContext) (msg : ClientMessage) (d : HandlerDeps C)
      → IsSound d
      → IfReturns (handle_message writes cache ctx msg d) IsSound
  unfolding handle_message process_answer send_next_question_ack
  handle_message-IsSound ctx msg d s = elim (Bool-cases (ctx.role == role_participant)) [
    | inl e ↦ rw e (
        answer_graded-IsSound ctx msg
          (get_correct_option_of d.tracker ctx.session_id
            (get_current_question d.tracker ctx.session_id).0)
          d s)
    | inr e ↦ rw e (elim (Bool-cases (ctx.role == role_admin)) [
      | inr f ↦ rw f s
      | inl f ↦ rw f (
          IfReturns-bind
            (broadcast_to_session writes ctx.session_id (bare next_question) false d.registry) _
            (SameLock d.registry) IsSound
            (broadcast_to_session-SameLock writes ctx.session_id (bare next_question) false
              d.registry)
            (λ r a. sound d d.tracker r s s.valid a))
    ])
  ]

  module _ (post : SessionAnswers → HttpReply) where
    pub question_started-IsSound :
        (sid : String) (key : List String) (d : HandlerDeps C)
        → IsSound d
        → IfReturns (question_started writes post cache sid key d) IsSound
    unfolding question_started send_game_end
    question_started-IsSound sid key d s =
        IfReturns-bind (or_panic (get_elem? key 1)) _ (λ x. Unit) IsSound
          (IfReturns-any (or_panic (get_elem? key 1)))
          (λ session h.
            let t = (inc_question_idx cache d.tracker session).1 in
            let qid = (get_current_question t session).0 in
            let question = (get_current_question t session).1 in
            let amount = pos (get_quiz_len t session) in
            IfReturns-bind
              (if eq_ℤ qid amount
                then broadcast_to_session writes sid (bare end) false d.registry
                else (board_step writes post cache sid session qid t d.registry
                    >>= question_step writes post cache sid qid amount question))
              _ (SameLock d.registry) IsSound
              (elim (Bool-cases (eq_ℤ qid amount)) [
                | inl e ↦
                    rw e (broadcast_to_session-SameLock writes sid (bare end) false d.registry)
                | inr e ↦ rw e (
                    SameLock-bind d.registry _ _
                      (board_step-SameLock writes sid post cache t session qid d.registry)
                      (λ r1. question_step-SameLock writes sid post cache t qid amount question r1))
              ])
              (λ r a. sound d t r s (inc_question_idx-IsValid cache d.tracker session s.valid) a))

    pub session_started-IsSound :
        (body : Option (String × Quiz)) (d : HandlerDeps C) (tags : Dict String)
        → IsSound d
        → IfReturns (session_started writes post cache body d tags) (λ out. IsSound out.0)
    unfolding session_started
    session_started-IsSound none d tags s = s
    session_started-IsSound (some (sid, quiz)) d tags s =
        IfReturns-bind (register_session sid d.registry) _ (λ out. SameLock d.registry out.1)
          (λ out. IsSound out.0) (register_session-SameLock sid d.registry)
          (λ (fresh, r) a. elim (Bool-cases fresh) [
            | inl e ↦ rw e (
                sound d (new_session cache d.tracker sid quiz) r s
                  (new_session-IsValid cache d.tracker sid quiz s.valid) a)
            | inr e ↦ rw e (sound d d.tracker r s s.valid a)
          ])

    pub session_ended-IsSound :
        (cancel : String → ErrorOr) (body : Option String) (d : HandlerDeps C) (tags : Dict String)
        → IsSound d
        → IfReturns (session_ended writes post cache cancel body d tags) (λ out. IsSound out.0)
    unfolding session_ended
    session_ended-IsSound cancel none d tags s = s
    session_ended-IsSound cancel (some sid) d tags s =
        IfReturns-bind (broadcast_to_session writes sid (bare end) false d.registry) _
          (SameLock d.registry) (λ out. IsSound out.0)
          (broadcast_to_session-SameLock writes sid (bare end) false d.registry)
          (λ r1 a.
            IfReturns-bind (unregister_session sid r1) _ (SameLock r1) (λ out. IsSound out.0)
              (unregister_session-SameLock sid r1)
              (λ r2 b. sound d d.tracker r2 s s.valid (SameLock-trans d.registry r1 r2 a b)))
