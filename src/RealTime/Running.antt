-- ===== src/RealTime/Running.antt =====
-- The service of backend-go/real_time while it runs, on any network: users connect, send and leave,
-- and the broker delivers, in any order.
pub mod Sound
use try_it.Prelude.{
  ℕ, ◌≡◌, ◌∙◌, refl, inl, inr, String, Bool, true, false, Option, none, some, List, [], ◌∷◌, Run,
  done, panics, blocks, ◌>>=◌, or_panic, IfReturns, IfReturns-bind, IfReturns-any, IfReturns-done,
  Bool-cases, Option-cases, get_elem?, if◌then◌else◌, ◌==◌,
}
use try_it.Prelude.Int.{ℤ, pos, eq_ℤ}
use try_it.Prelude.Dict.{Dict}
use try_it.Shared.Errors.{Result, ok, err, ErrorOr, Result-cases}
use try_it.Shared.Token.{UserToken, role_admin, role_participant}
use try_it.Shared.Quiz.{Quiz, AnswerOption}
use try_it.Shared.Scores.{SessionAnswers}
use try_it.RealTime.Cache.{Cache}
use try_it.RealTime.Message.{
  ServerMessage, ClientMessage, bare, end, next_question, user_answered, user,
}
use try_it.RealTime.Registry.{
  ConnectionContext, Attempt, ConnectionRegistry, new_connection_registry, register_session,
  unregister_session, register_connection, unregister_connection, send_to_admin,
  broadcast_to_session,
}
use try_it.RealTime.Registry.Delivery.{IsFree}
use try_it.RealTime.Registry.Locks.{
  SameLock, SameLock-trans, SameLock-bind, IfReturns-mono, register_session-SameLock,
  unregister_session-SameLock, register_connection-SameLock, unregister_connection-SameLock,
  broadcast_to_session-SameLock, send_to_admin-SameLock,
}
use try_it.RealTime.Locking.{board_step-SameLock, question_step-SameLock}
use try_it.RealTime.Tracker.{
  QuizTracker, new_quiz_tracker, add_participant, record_answer, inc_question_idx,
  get_current_question, get_quiz_len, new_session, get_correct_option_of,
}
use try_it.RealTime.Tracker.Valid.{
  IsValid, IsValid-new, inc_question_idx-IsValid, new_session-IsValid,
}
use try_it.RealTime.Tracker.Reachable.{add_participant-IsValid, record_answer-IsValid}
use try_it.RealTime.Leaderboard.{HttpReply}
use try_it.RealTime.Responder.{send_game_end, send_next_question_ack}
use try_it.RealTime.Consumer.{
  HandlerDeps, board_step, question_step, question_started, session_started, session_ended,
  cleanup_question_consumer,
}
use try_it.RealTime.Handler.{
  ConnectReply, admitted, join_session, web_socket_handler, answer_graded, process_answer,
  handle_message,
}
use try_it.RealTime.Running.Sound.{
  IsSound, sound, web_socket_handler-IsSound, handle_message-IsSound, question_started-IsSound,
  session_started-IsSound, session_ended-IsSound,
}

module _ (writes : List Attempt → ConnectionContext → ServerMessage → Bool)
    (parse : String → Result UserToken) (post : SessionAnswers → HttpReply)
    (cancel : String → ErrorOr) {C : Type 0} (cache : Cache C) where
  -- The state of the service, with the tags of its consumers, after a number of rounds that returned:
  -- a user connects, sends, or leaves (the end of `handleRead`), and a trigger of a question, a start
  -- or an end of a session is delivered.
  pub data Running : HandlerDeps C → Dict String → Type 0 where
    started :
        (c : C)
        → Running (record { tracker = new_quiz_tracker c; registry = new_connection_registry }) []
    connected :
        (d d' : HandlerDeps C) (tags : Dict String) (socket : Option ℕ) (token : String)
        (reply : ConnectReply)
        → Running d tags
        → web_socket_handler parse socket token d ≡ done (reply, d')
        → Running d' tags
    received :
        (d d' : HandlerDeps C) (tags : Dict String) (ctx : ConnectionContext) (msg : ClientMessage)
        → Running d tags
        → handle_message writes cache ctx msg d ≡ done d'
        → Running d' tags
    left :
        (d : HandlerDeps C) (r : ConnectionRegistry) (tags : Dict String) (sid uid : String)
        → Running d tags
        → unregister_connection sid uid d.registry ≡ done r
        → Running (record d { registry = r }) tags
    triggered :
        (d d' : HandlerDeps C) (tags : Dict String) (sid : String) (key : List String)
        → Running d tags
        → question_started writes post cache sid key d ≡ done d'
        → Running d' tags
    begun :
        (d d' : HandlerDeps C) (tags tags' : Dict String) (body : Option (String × Quiz))
        → Running d tags
        → session_started writes post cache body d tags ≡ done (d', tags')
        → Running d' tags'
    ended :
        (d d' : HandlerDeps C) (tags tags' : Dict String) (body : Option String)
        → Running d tags
        → session_ended writes post cache cancel body d tags ≡ done (d', tags')
        → Running d' tags'

  -- However connections, messages, departures and the three deliveries follow each other, each a step
  -- of its own, from an empty tracker and an empty registry, with any tokens, network, store,
  -- leaderboard and broker, and as long as each step returned: nobody holds the lock of the registry,
  -- and the tracker is valid, so that a session has a table of answers if and only if it has a quiz, its
  -- index is -1 or names a question, and every row has as many places as the quiz has questions.
  pub Running-IsSound : (d : HandlerDeps C) (tags : Dict String) → Running d tags → IsSound d
  unfolding new_connection_registry
  Running-IsSound _ _ (started c) = record { valid = IsValid-new c; free = (refl, refl) }
  Running-IsSound _ _ (connected d d' tags socket token reply h e) =
      IfReturns-done _ (λ out. IsSound out.1) (reply, d') e
        (web_socket_handler-IsSound cache parse socket token d (Running-IsSound d tags h))
  Running-IsSound _ _ (received d d' tags ctx msg h e) =
      IfReturns-done _ IsSound d' e
        (handle_message-IsSound writes cache ctx msg d (Running-IsSound d tags h))
  Running-IsSound _ _ (left d r tags sid uid h e) =
      let s = Running-IsSound d tags h in
      sound d d.tracker r s s.valid (
        IfReturns-done _ (SameLock d.registry) r e
          (unregister_connection-SameLock sid uid d.registry))
  Running-IsSound _ _ (triggered d d' tags sid key h e) =
      IfReturns-done _ IsSound d' e
        (question_started-IsSound writes cache post sid key d (Running-IsSound d tags h))
  Running-IsSound _ _ (begun d d' tags tags' body h e) =
      IfReturns-done _ (λ out. IsSound out.0) (d', tags') e
        (session_started-IsSound writes cache post body d tags (Running-IsSound d tags h))
  Running-IsSound _ _ (ended d d' tags tags' body h e) =
      IfReturns-done _ (λ out. IsSound out.0) (d', tags') e
        (session_ended-IsSound writes cache post cancel body d tags (Running-IsSound d tags h))
