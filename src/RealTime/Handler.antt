-- ===== src/RealTime/Handler.antt =====
-- backend-go/real_time/ws/handler.go and the reading half of message.go: a user connects, and what
-- the service does with what the user sends. Checking a token is the JWT library's: `parse`.
use try_it.Prelude.{
  ℕ, zero, suc, ◌++◌, String, Bool, true, Option, none, some, List, [], ◌∷◌, Run, done, ◌>>=◌,
  if◌then◌else◌, ◌==◌,
}
use try_it.Prelude.Int.{ℤ, eq_ℤ}
use try_it.Shared.Errors.{Result, ok, err, ErrorOr}
use try_it.Shared.Token.{UserToken, role_admin, role_participant}
use try_it.Shared.Quiz.{AnswerOption, UserAnswer}
use try_it.RealTime.Cache.{Cache}
use try_it.RealTime.Message.{ServerMessage, ClientMessage, bare, user_answered, user}
use try_it.RealTime.Registry.{
  ConnectionContext, Attempt, ConnectionRegistry, register_session, register_connection,
  unregister_connection, send_to_admin,
}
use try_it.RealTime.Tracker.{
  add_participant, get_current_question, get_correct_option_of, record_answer,
}
use try_it.RealTime.Responder.{send_next_question_ack}
use try_it.RealTime.Consumer.{HandlerDeps}

-- How the handler answers: two HTTP errors, a failed upgrade, a connection closed at once, or the
-- welcome with the session and the user.
pub data ConnectReply : Type 0 where
  missing_token invalid_token no_upgrade closed : ConnectReply
  welcome : String → String → ConnectReply

-- The handler once the connection is registered, or refused.
unfoldable pub admitted :
    {C : Type 0}
    → UserToken
    → HandlerDeps C
    → ErrorOr × ConnectionRegistry
    → Run (ConnectReply × HandlerDeps C)
admitted token d (some text, r) = done (closed, record d { registry = r })
admitted token d (none, r) = do
  t ←
      (if token.user_type == role_participant
        then add_participant d.tracker token.session_id token.user_id
        else done d.tracker)
  done (welcome token.session_id token.user_id, record { tracker = t; registry = r })

-- The handler behind the upgrade, with its socket.
unfoldable pub join_session :
    {C : Type 0} → UserToken → ℕ → HandlerDeps C → Run (ConnectReply × HandlerDeps C)
unfolding admitted
join_session token socket d = do
  (_new, r1) ← register_session token.session_id d.registry
  let ctx : ConnectionContext = record {
    conn = some socket;
    user_id = token.user_id;
    session_id = token.session_id;
    role = token.user_type;
  }
  out ← register_connection ctx r1
  admitted token d out

-- The handler that `NewWebSocketHandler` returns; `upgrade` is the new socket, if there is one.
unfoldable pub web_socket_handler :
    {C : Type 0}
    → (String → Result UserToken)
    → Option ℕ
    → String
    → HandlerDeps C
    → Run (ConnectReply × HandlerDeps C)
web_socket_handler parse upgrade token_string d =
    if token_string == "" then done (missing_token, d) else elim (parse token_string) [
      | err e ↦ done (invalid_token, d)
      | ok token ↦ elim upgrade [
        | none ↦ done (no_upgrade, d)
        | some socket ↦ join_session token socket d
      ]
    ]

-- What a read from the socket gives: a message, text that does not decode, or the end.
pub data Frame : Type 0 where
  message : ClientMessage → Frame
  garbage : Frame
  hang_up : Frame

-- Who goes on next: the reader, with the frame that it reads, or one of the goroutines that it
-- started and that have not run yet.
pub data Turn : Type 0 where
  reads : Frame → Turn
  runs : ℕ → Turn

-- One of the waiting messages, and the others.
unfoldable pub pick : ℕ → List ClientMessage → Option (ClientMessage × List ClientMessage)
pick k [] = none
pick zero (m ∷ more) = some (m, more)
pick (suc k) (m ∷ more) =
    let found = pick k more in elim found [ none ↦ none | some (n, others) ↦ some (n, m ∷ others) ]

module _ (writes : List Attempt → ConnectionContext → ServerMessage → Bool) {C : Type 0}
    (cache : Cache C) where
  -- `processAnswer` once the correct option of the current question is looked up.
  unfoldable pub answer_graded :
      ConnectionContext
      → ClientMessage
      → ℤ × Option AnswerOption
      → HandlerDeps C
      → Run (HandlerDeps C)
  answer_graded ctx msg (correct_idx, none) d = done d
  answer_graded ctx msg (correct_idx, some opt) d = do
    let user_answer : UserAnswer = record {
      answered = true;
      option = msg.option;
      correct = eq_ℤ msg.option correct_idx;
      timestamp = msg.timestamp;
    }
    t ← record_answer cache d.tracker ctx.session_id ctx.user_id user_answer
    r ←
        send_to_admin writes ctx.session_id
          (record (bare user_answered) { payload = user ctx.user_id }) d.registry
    done (record { tracker = t; registry = r })

  unfoldable pub process_answer :
      ConnectionContext → ClientMessage → HandlerDeps C → Run (HandlerDeps C)
  unfolding answer_graded
  process_answer ctx msg d =
      let qid = (get_current_question d.tracker ctx.session_id).0 in
      answer_graded ctx msg (get_correct_option_of d.tracker ctx.session_id qid) d

  -- What a goroutine of the `switch` on the role of the sender does.
  unfoldable pub handle_message :
      ConnectionContext → ClientMessage → HandlerDeps C → Run (HandlerDeps C)
  handle_message ctx msg d =
      if ctx.role == role_participant
      then process_answer ctx msg d
      else if ctx.role == role_admin
      then (do
        r ← send_next_question_ack writes ctx.session_id d.registry
        done (record d { registry = r }))
      else done d

  -- The turns once the reader is over: the goroutines that still wait run.
  unfoldable pub run_waiting :
      ConnectionContext
      → List Turn
      → List ClientMessage
      → HandlerDeps C
      → Run (List ClientMessage × HandlerDeps C)
  run_waiting ctx [] waiting d = done (waiting, d)
  run_waiting ctx (reads frame ∷ turns) waiting d = run_waiting ctx turns waiting d
  run_waiting ctx (runs k ∷ turns) waiting d = elim (pick k waiting) [
    | none ↦ run_waiting ctx turns waiting d
    | some (msg, others) ↦ handle_message ctx msg d >>= run_waiting ctx turns others
  ]

  -- `handleRead`, from the messages whose goroutines wait, through any turns; it gives those that then
  -- still wait. Each goroutine is one step.
  unfoldable pub handle_read :
      ConnectionContext
      → List Turn
      → List ClientMessage
      → HandlerDeps C
      → Run (List ClientMessage × HandlerDeps C)
  unfolding run_waiting
  handle_read ctx [] waiting d = done (waiting, d)
  handle_read ctx (reads (message msg) ∷ turns) waiting d =
      handle_read ctx turns (waiting ++ msg ∷ []) d
  handle_read ctx (reads garbage ∷ turns) waiting d = handle_read ctx turns waiting d
  handle_read ctx (reads hang_up ∷ turns) waiting d = do
    r ← unregister_connection ctx.session_id ctx.user_id d.registry
    run_waiting ctx turns waiting (record d { registry = r })
  handle_read ctx (runs k ∷ turns) waiting d = elim (pick k waiting) [
    | none ↦ handle_read ctx turns waiting d
    | some (msg, others) ↦ handle_message ctx msg d >>= handle_read ctx turns others
  ]
