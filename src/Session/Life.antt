-- ===== src/Session/Life.antt =====
-- The life of a session over the HTTP handlers: it is created, users join by its code, the host asks
-- for the next question, and it ends.
use try_it.Prelude.{ℕ, ◌≡◌, refl, ap, ◌∙◌, String, true, false, none, some}
use try_it.Prelude.Text.{join}
use try_it.Shared.Errors.{Result, ok, ErrorOr}
use try_it.Shared.Quiz.{Quiz}
use try_it.Shared.Token.{UserToken, role_admin, role_participant}
use try_it.Http.{post, no_response, encode}
use try_it.Session.Storage.{
  Session, RedisClient, session_key, stored_fields, save_session, load_session, delete_session,
  code_exist,
}
use try_it.Session.Broker.{Channel, Event, publish_session_start, publish_session_end}
use try_it.Session.Manager.{
  SessionManager, Fetched, answer, no_answer, generate_user_token, draw_code, new_session,
  validate_code, session_start, wrapped, add_player, session_end, end_after,
}
use try_it.Session.Handlers.{
  CreateSessionReq, ValidateCodeReq, created, Reply, refuse, Draws, created_reply, create_after,
  create_session_handler, validate_code_handler, session_end_handler, outcome,
}
use try_it.Session.Codes.{
  RedisLaws, IsDrawn, draw_code-IsDrawn, load_session-saved, code_exist-saved, code_exist-deleted,
}

module _ {R B : Type 0} (client : RedisClient R) (channel : Channel B)
    (sign : UserToken → Result String) (endpoint : String) where
  -- The session that `NewSession` makes.
  abbrev pub waiting : String → (ℕ → String) → SessionManager R B → Session
  waiting sid codes m = record {
    id = sid;
    code = draw_code client 3 0 codes "" m.cache;
    state = "waiting";
    server_ws_endpoint = endpoint;
  }

  -- Where the store takes the new session: it has the first of three codes that is not in use, or the
  -- third although it is in use; its code is then in use, it reads back as it was saved but for its
  -- endpoint, and nothing is published.
  pub new_session_lem :
      (laws : RedisLaws client) (sid : String) (codes : ℕ → String) (m : SessionManager R B) (r : R)
      → client.hset m.cache
          (session_key (waiting sid codes m).code)
          (stored_fields (waiting sid codes m))
        ≡ (r, none)
      → (new_session client sid codes endpoint m
          ≡ (ok (waiting sid codes m), record m { cache = r }))
        × IsDrawn client codes m.cache 0 3 (waiting sid codes m).code
        × (code_exist client r (waiting sid codes m).code ≡ true)
        × (load_session client r (waiting sid codes m).code
            ≡ ok (record (waiting sid codes m) { server_ws_endpoint = "" }))
  unfolding new_session save_session
  new_session_lem laws sid codes m r saved = (
    rw saved refl,
    draw_code-IsDrawn client codes m.cache 2 0 "",
    code_exist-saved client laws m.cache r (waiting sid codes m) saved,
    load_session-saved client laws m.cache r (waiting sid codes m) saved,
  )

  -- A quiz that is fetched goes to the broker with the code.
  session_start-published :
      (fetch : String → Fetched) (quiz_uuid code : String) (m : SessionManager R B) (quiz : Quiz)
      (b : B)
      → fetch (join "http://quiz:8000/api/" quiz_uuid) ≡ answer 200 (ok (ok quiz))
      → channel.publish m.rabbit "session.start"
          (Event.session_start (record { session_id = code; quiz = quiz }))
        ≡ (b, none)
      → session_start client channel fetch quiz_uuid code m ≡ (none, record m { rabbit = b })
  unfolding session_start publish_session_start
  session_start-published fetch quiz_uuid code m quiz b fetched published =
      rw (fetched, session_start) (rw published refl)

  -- A code that is in use lets a user in, one that is not does not.
  validate_code_handler-known :
      (user_id lost jwt : String) (req : ValidateCodeReq) (m : SessionManager R B)
      → code_exist client m.cache req.code ≡ true
      → sign (generate_user_token user_id req.code req.user_name role_participant) ≡ ok jwt
      → validate_code_handler client channel sign endpoint user_id lost true post (some req) m ≡ (
        encode
            (created (record {
              jwt = jwt;
              server_ws_endpoint = endpoint;
              session_id = req.code;
              temp_user_id = user_id;
            }))
            no_response,
        (add_player client req.code req.user_name m).1,
      )
  unfolding validate_code_handler validate_code generate_user_token
  validate_code_handler-known user_id lost jwt req m known signed =
      rw (signed, validate_code_handler) (rw known refl)

  validate_code_handler-unknown :
      (user_id lost jwt : String) (req : ValidateCodeReq) (m : SessionManager R B)
      → code_exist client m.cache req.code ≡ false
      → sign (generate_user_token user_id req.code req.user_name role_participant) ≡ ok jwt
      → validate_code_handler client channel sign endpoint user_id lost true post (some req) m
        ≡ (refuse 400 "Code is incorrect", m)
  unfolding validate_code_handler validate_code
  validate_code_handler-unknown user_id lost jwt req m known signed =
      rw (signed, validate_code_handler) (rw known refl)

  -- The token of the host of a new session, and the reply that carries it.
  abbrev pub host_token : Draws → CreateSessionReq → SessionManager R B → UserToken
  host_token draws req m =
      generate_user_token draws.user_id (waiting draws.session_id draws.codes m).code req.user_name
        role_admin

  module _ (laws : RedisLaws client) (draws : Draws) (req : CreateSessionReq)
      (m : SessionManager R B) (r : R)
      (saved : client.hset m.cache
          (session_key (waiting draws.session_id draws.codes m).code)
          (stored_fields (waiting draws.session_id draws.codes m))
        ≡ (r, none))
      (fetch : String → Fetched) where
    -- A creation comes down to `SessionStart` with the new code.
    create_session_handler-start :
        create_session_handler client channel sign endpoint fetch draws true post (some req) m ≡ (
          created_reply client channel sign endpoint true
              (host_token draws req m)
              ""
              (host_token draws req m).user_id
              (session_start client channel fetch req.quiz_id
                (host_token draws req m).session_id
                (record m { cache = r })).0,
          (session_start client channel fetch req.quiz_id
              (host_token draws req m).session_id
              (record m { cache = r })).1,
        )
    unfolding create_session_handler create_after generate_user_token
    create_session_handler-start =
        ap
          (create_after client channel sign endpoint
            (session_start client channel fetch req.quiz_id) ("", λ token. token.user_id) draws true
            req)
          (new_session_lem laws draws.session_id draws.codes m r saved).0

    -- A host creates a session, where the store takes it, the quiz service answers with a quiz and the
    -- broker takes the event: the reply is a 200 with the host's token and the code that was drawn,
    -- one event with that code and the quiz was published, and a user who then joins by the code gets
    -- a 200 with a participant's token for the same session.
    pub create_session_handler_lem :
        (quiz : Quiz) (b : B) (jwt : String) (user_id name lost jwt' : String)
        → fetch (join "http://quiz:8000/api/" req.quiz_id) ≡ answer 200 (ok (ok quiz))
        → channel.publish m.rabbit "session.start" (
            Event.session_start
              (record { session_id = (waiting draws.session_id draws.codes m).code; quiz = quiz }))
          ≡ (b, none)
        → sign (host_token draws req m) ≡ ok jwt
        → sign (
            generate_user_token user_id
              (waiting draws.session_id draws.codes m).code
              name
              role_participant)
          ≡ ok jwt'
        → (create_session_handler client channel sign endpoint fetch draws true post (some req) m
            ≡ (
              encode
                  (created (record {
                    jwt = jwt;
                    server_ws_endpoint = "";
                    session_id = (waiting draws.session_id draws.codes m).code;
                    temp_user_id = draws.user_id;
                  }))
                  no_response,
              record { cache = r; rabbit = b },
            ))
          × ((validate_code_handler client channel sign endpoint user_id lost true post
                (some (record {
                  code = (waiting draws.session_id draws.codes m).code;
                  user_name = name;
                }))
                (record { cache = r; rabbit = b })).0
              ≡ encode
                  (created (record {
                    jwt = jwt';
                    server_ws_endpoint = endpoint;
                    session_id = (waiting draws.session_id draws.codes m).code;
                    temp_user_id = user_id;
                  }))
                  no_response)
    unfolding generate_user_token
    create_session_handler_lem quiz b jwt user_id name lost jwt' fetched published signed signed' =
        let token = host_token draws req m in
        let code = (waiting draws.session_id draws.codes m).code in
        let in_use = (new_session_lem laws draws.session_id draws.codes m r saved).2 in
        let started =
          session_start-published fetch req.quiz_id code (record m { cache = r }) quiz b fetched
            published in
        (
          create_session_handler-start
              ∙ ap
                  (λ (p : ErrorOr × SessionManager R B). (
                    created_reply client channel sign endpoint true token "" token.user_id p.0,
                    p.1,
                  ))
                  started
              ∙ (rw (signed, created_reply) refl),
          ap (λ (p : Reply × SessionManager R B). p.0)
              (validate_code_handler-known user_id lost jwt'
                (record { code = code; user_name = name }) (record { cache = r; rabbit = b }) in_use
                signed'),
        )

  -- The host ends a session, where the store deletes it: the event with its code is published, and
  -- the reply is 200, or 500 with the broker's error. Either way the session is gone from the store:
  -- a user who then joins by its code gets a 400 and changes nothing.
  pub session_end_handler_lem :
      (laws : RedisLaws client) (m : SessionManager R B) (code : String) (r : R)
      (user_id name lost jwt : String)
      → client.del m.cache (session_key code) ≡ (r, none)
      → sign (generate_user_token user_id code name role_participant) ≡ ok jwt
      → (let sent = channel.publish m.rabbit "session.end" (Event.session_end code) in
          session_end_handler client channel sign endpoint post code m
          ≡ outcome client channel sign endpoint (
            wrapped "error to send message to rabbit " sent.1,
            record { cache = r; rabbit = sent.0 },
          ))
        × ((b : B)
            → validate_code_handler client channel sign endpoint user_id lost true post
                (some (record { code = code; user_name = name }))
                (record { cache = r; rabbit = b })
              ≡ (refuse 400 "Code is incorrect", record { cache = r; rabbit = b }))
  unfolding session_end_handler session_end end_after delete_session publish_session_end
  session_end_handler_lem laws m code r user_id name lost jwt deleted signed = (
    ap
        (λ (p : R × ErrorOr).
          outcome client channel sign endpoint (end_after client channel code m p))
        deleted,
    λ b.
        validate_code_handler-unknown user_id lost jwt (record { code = code; user_name = name })
          (record { cache = r; rabbit = b }) (code_exist-deleted client laws m.cache r code deleted)
          signed,
  )

  -- A creation that the quiz service does not answer is a 500, but the session that was saved for it
  -- stays: its code is in use and nothing was published for it.
  pub create_session_handler_orphan :
      (laws : RedisLaws client) (draws : Draws) (req : CreateSessionReq) (m : SessionManager R B)
      (r : R) (fetch : String → Fetched) (e : String)
      → client.hset m.cache
          (session_key (waiting draws.session_id draws.codes m).code)
          (stored_fields (waiting draws.session_id draws.codes m))
        ≡ (r, none)
      → fetch (join "http://quiz:8000/api/" req.quiz_id) ≡ no_answer e
      → (create_session_handler client channel sign endpoint fetch draws true post (some req) m
          ≡ (refuse 500 "StatusInternalServerError", record m { cache = r }))
        × (code_exist client r (waiting draws.session_id draws.codes m).code ≡ true)
  unfolding session_start
  create_session_handler_orphan laws draws req m r fetch e saved silent = (
    create_session_handler-start laws draws req m r saved fetch ∙ (rw (silent, session_start) refl),
    (new_session_lem laws draws.session_id draws.codes m r saved).2,
  )
