-- ===== src/Session/Handlers.antt =====
-- backend-go/SessionService/Handlers: the HTTP handlers over the session manager. A handler takes the method of the
-- request and what its body decodes to, and `sent` says whether the connection takes the bytes of
-- the reply; `sign` is the JWT library's signing.
use try_it.Prelude.{ℕ, String, Bool, Option, none, some, if◌then◌else◌}
use try_it.Shared.Errors.{Result, ok, err, ErrorOr}
use try_it.Shared.Token.{UserToken, role_admin, role_participant}
use try_it.Http.{Method, is_post, Response, no_response, write_header, encode, try_encode}
use try_it.Session.Storage.{Session, RedisClient}
use try_it.Session.Broker.{Channel}
use try_it.Session.Manager.{
  SessionManager, Fetched, empty_session, generate_user_token, new_session, validate_code,
  session_start, session_start_mock, next_question, add_player, session_end, check_service,
}

pub record SessionCreateResponse : Type 0 where
  pub jwt : String
  pub server_ws_endpoint : String
  pub session_id : String
  pub temp_user_id : String

pub record CreateSessionReq : Type 0 where
  pub user_name : String
  pub quiz_id : String

pub record ValidateCodeReq : Type 0 where
  pub code : String
  pub user_name : String

-- What is encoded: `models.ErrorResponse` or `models.SessionCreateResponse`.
pub data Body : Type 0 where
  message : String → Body
  created : SessionCreateResponse → Body

abbrev pub Reply : Type 0
Reply = Response Body

-- A status with an error message, on a fresh response.
abbrev pub refuse : ℕ → String → Reply
refuse code text = encode (message text) (write_header code no_response)

-- `json.NewEncoder(w).Encode(response)` and the branch on its error.
abbrev pub reply_created : Bool → SessionCreateResponse → Reply
reply_created sent response =
    let (fine, w) = try_encode sent (created response) no_response in
    if fine then w else encode (message "StatusInternalServerError") (write_header 500 w)

-- What is drawn for a request: the ids of the session and of the user, and the codes tried.
pub record Draws : Type 0 where
  pub session_id : String
  pub user_id : String
  pub codes : ℕ → String

-- The session that comes with the result of `NewSession`.
abbrev pub session_of : Result Session → Session
session_of (err e) = empty_session
session_of (ok s) = s

module _ {R B : Type 0} (client : RedisClient R) (channel : Channel B)
    (sign : UserToken → Result String) (endpoint : String) where
  -- The rest of a creation after `SessionStart`.
  abbrev pub created_reply : Bool → UserToken → String → String → ErrorOr → Reply
  created_reply sent token ws temp (some e) = refuse 500 "StatusInternalServerError"
  created_reply sent token ws temp none = elim (sign token) [
    | err e ↦ refuse 500 "StatusInternalServerError"
    | ok jwt ↦ reply_created sent (record {
      jwt = jwt;
      server_ws_endpoint = ws;
      session_id = token.session_id;
      temp_user_id = temp;
    })
  ]

  -- The rest of a creation after `NewSession`, which both handlers have, with `start` for
  -- `SessionStart` or its mock, and what each puts into its reply for the endpoint and the user's id.
  unfoldable pub create_after :
      (String → SessionManager R B → ErrorOr × SessionManager R B)
      → String × (UserToken → String)
      → Draws
      → Bool
      → CreateSessionReq
      → Result Session × SessionManager R B
      → Reply × SessionManager R B
  create_after start (ws, temp) draws sent req (session, m1) =
      let token =
        generate_user_token draws.user_id (session_of session).code req.user_name role_admin in
      elim session [
        | err e ↦ (refuse 500 "StatusInternalServerError", m1)
        | ok s ↦
            let (failed, m2) = start token.session_id m1 in
            (created_reply sent token ws (temp token) failed, m2)
      ]

  unfoldable pub create_session_handler :
      (String → Fetched)
      → Draws
      → Bool
      → Method
      → Option CreateSessionReq
      → SessionManager R B
      → Reply × SessionManager R B
  unfolding create_after
  create_session_handler fetch draws sent verb decoded m =
      if is_post verb
      then elim decoded [
        | none ↦ (refuse 400 "Bad Request", m)
        | some req ↦
            create_after (session_start client channel fetch req.quiz_id)
              ("", λ token. token.user_id) draws sent req
              (new_session client draws.session_id draws.codes endpoint m)
      ]
      else (refuse 405 "Only GET method is allowed", m)

  unfoldable pub create_session_handler_mock :
      Draws
      → Bool
      → Method
      → Option CreateSessionReq
      → SessionManager R B
      → Reply × SessionManager R B
  unfolding create_after
  create_session_handler_mock draws sent verb decoded m =
      if is_post verb
      then elim decoded [
        | none ↦ (refuse 400 "Bad Request", m)
        | some req ↦
            create_after (session_start_mock client channel req.quiz_id) (endpoint, λ token. "")
              draws sent req (new_session client draws.session_id draws.codes endpoint m)
      ]
      else (refuse 405 "Only GET method is allowed", m)

  -- `ValidateCodeHandler`, which `/join` runs; `lost` is the text of the error of a write.
  unfoldable pub validate_code_handler :
      String
      → String
      → Bool
      → Method
      → Option ValidateCodeReq
      → SessionManager R B
      → Reply × SessionManager R B
  validate_code_handler user_id lost sent verb decoded m =
      if is_post verb
      then elim decoded [
        | none ↦ (refuse 400 "Bad Request", m)
        | some req ↦
            let token = generate_user_token user_id req.code req.user_name role_participant in
            elim (sign token) [
              | err e ↦ (refuse 500 "StatusInternalServerError", m)
              | ok jwt ↦
                  let response : SessionCreateResponse = record {
                    jwt = jwt;
                    server_ws_endpoint = endpoint;
                    session_id = token.session_id;
                    temp_user_id = token.user_id;
                  } in
                  if validate_code client req.code m
                  then (let (fine, w) = try_encode sent (created response) no_response in
                      if fine
                      then (w, (add_player client req.code req.user_name m).1)
                      else (encode (message lost) (write_header 500 w), m))
                  else (refuse 400 "Code is incorrect", m)
            ]
      ]
      else (refuse 405 "Only GET method is allowed", m)

  unfoldable pub validate_session_code_handler : Method → Option String → SessionManager R B → Reply
  validate_session_code_handler verb decoded m =
      if is_post verb
      then elim decoded [
        | none ↦ refuse 400 "Bad Request"
        | some code ↦
            if validate_code client code m
            then write_header 200 no_response
            else refuse 400 "Code is incorrect"
      ]
      else refuse 405 "Only GET method is allowed"

  -- The end that three handlers share: 200, or 500 with the text of the error.
  abbrev pub outcome : ErrorOr × SessionManager R B → Reply × SessionManager R B
  outcome (none, m) = (write_header 200 no_response, m)
  outcome (some e, m) = (refuse 500 e, m)

  unfoldable pub start_session_handler :
      (String → Fetched)
      → Method
      → String
      → String
      → SessionManager R B
      → Reply × SessionManager R B
  start_session_handler fetch verb quiz_id code m =
      if is_post verb
      then outcome (session_start client channel fetch quiz_id code m)
      else (refuse 405 "Method not allowed", m)

  unfoldable pub next_question_handler :
      Method → String → SessionManager R B → Reply × SessionManager R B
  next_question_handler verb code m =
      if is_post verb
      then outcome (next_question client channel code m)
      else (refuse 405 "Method not allowed", m)

  unfoldable pub session_end_handler :
      Method → String → SessionManager R B → Reply × SessionManager R B
  session_end_handler verb code m =
      if is_post verb
      then outcome (session_end client channel code m)
      else (refuse 405 "Method not allowed", m)

  unfoldable pub health_handler : Method → SessionManager R B → Reply
  health_handler verb m =
      if is_post verb
      then elim (check_service client channel m) [
        | some e ↦ refuse 500 "Internal Server Error"
        | none ↦ write_header 200 no_response
      ]
      else refuse 405 "Only GET method is allowed"
