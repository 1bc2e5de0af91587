-- ===== src/Hosting.antt =====
-- The services together: a session is created over backend-go/SessionService, its host and a
-- participant connect to backend-go/real_time with the tokens that they got, and the first question
-- is triggered.
pub mod Opening
pub mod First
use try_it.Prelude.{
  ℕ, ◌<◌, Returns-mono, ◌≡◌, refl, ap, sym, subst, ◌∙◌, String, Bool, true, false, ◌&&◌, Option,
  none, some, List, [], ◌∷◌, Run, done, ◌>>=◌, Returns, Returns-bind, if◌then◌else◌, ◌==◌, eq_refl,
  eq_iff, arith, inl, inr, Option-cases,
}
use try_it.Prelude.Int.{negsuc}
use try_it.Prelude.Text.{join}
use try_it.Prelude.Dict
use try_it.Prelude.Dict.{Dict, get-put, get-nil}
use try_it.Shared.Errors.{Result, ok, ErrorOr}
use try_it.Shared.Quiz.{Quiz, OngoingQuiz, len}
use try_it.Shared.Scores.{SessionAnswers}
use try_it.Shared.Token.{UserToken, role_admin, role_participant}
use try_it.Http.{post, no_response, encode}
use try_it.Session.Storage.{RedisClient, session_key, stored_fields}
use try_it.Session.Broker.{Channel, Event}
use try_it.Session.Manager.{SessionManager, Fetched, answer, generate_user_token}
use try_it.Session.Handlers.{
  CreateSessionReq, Reply, created, Draws, create_session_handler, validate_code_handler,
}
use try_it.Session.Codes.{RedisLaws}
use try_it.Session.Life.{waiting, host_token, create_session_handler_lem}
use try_it.RealTime.Cache.{Cache}
use try_it.RealTime.Message.{ServerMessage}
use try_it.RealTime.Leaderboard.{HttpReply}
use try_it.RealTime.Registry.{ConnectionContext, Attempt}
use try_it.RealTime.Registry.Delivery.{conn_of, IsFree}
use try_it.RealTime.Tracker.{QuizTracker, blank_answers, new_session}
use try_it.RealTime.Tracker.Valid.{IsValid, new_session-IsValid}
use try_it.RealTime.Tracker.Answers.{row_of, RowWritten}
use try_it.RealTime.Consumer.{HandlerDeps, session_started, question_started}
use try_it.RealTime.Handler.{ConnectReply, welcome, join_session, web_socket_handler}
use try_it.RealTime.Joining.{context_of, session_started_lem}
use try_it.RealTime.Entering.{join_session-host, join_session-player, web_socket_handler-joins}
use try_it.Hosting.First.{IsAsked, hosted_first}
use try_it.Hosting.Opening.{IsHosted, opening, opening_lem}

module _ {R B : Type 0} (client : RedisClient R) (laws : RedisLaws client) (channel : Channel B)
    (sign : UserToken → Result String) (parse : String → Result UserToken)
    (checks : (token : UserToken) (jwt : String) → sign token ≡ ok jwt → parse jwt ≡ ok token)
    (shows : (token : UserToken) (jwt : String) → sign token ≡ ok jwt → (jwt == "") ≡ false)
    (endpoint : String) (writes : List Attempt → ConnectionContext → ServerMessage → Bool)
    (up : (log : List Attempt) (c : ConnectionContext) (m : ServerMessage) → writes log c m ≡ true)
    (post_answers : SessionAnswers → HttpReply) {C : Type 0} (cache : Cache C) where
  -- A host creates a session over HTTP, a user joins by its code, then the real-time service gets the
  -- published start, both connect to it with the tokens of their replies, and the first question is
  -- triggered. Where the store, the quiz service, the broker, the signing and the network work, tokens
  -- are read back as they were signed, the two users have different ids, the quiz has a question, and
  -- the code is new to a real-time service with a valid tracker and a free lock: both replies are a 200
  -- with the drawn code; nothing panics or waits for ever; both are welcomed to that session and are
  -- the only ones online in it; its quiz stands before the first question; the participant has a blank
  -- answer for every question; the tracker is valid and the lock free. Then the trigger returns: the
  -- host gets the first question and the participant the signal, nobody anything else, and the quiz
  -- stands at that question.
  pub create_join_connect :
      (draws : Draws) (req : CreateSessionReq) (m : SessionManager R B) (r : R)
      (fetch : String → Fetched) (quiz : Quiz) (b : B) (jwt jwt' user_id name lost : String)
      (d : HandlerDeps C) (tags : Dict String) (socket socket' : ℕ)
      → client.hset m.cache
          (session_key (waiting client channel sign endpoint draws.session_id draws.codes m).code)
          (stored_fields (waiting client channel sign endpoint draws.session_id draws.codes m))
        ≡ (r, none)
      → fetch (join "http://quiz:8000/api/" req.quiz_id) ≡ answer 200 (ok (ok quiz))
      → channel.publish m.rabbit "session.start" (
          Event.session_start (record {
            session_id = (waiting client channel sign endpoint draws.session_id draws.codes m).code;
            quiz = quiz;
          }))
        ≡ (b, none)
      → sign (host_token client channel sign endpoint draws req m) ≡ ok jwt
      → sign (
          generate_user_token user_id
            (waiting client channel sign endpoint draws.session_id draws.codes m).code
            name
            role_participant)
        ≡ ok jwt'
      → (user_id == draws.user_id) ≡ false
      → 0 < len quiz
      → IsValid d.tracker
      → IsFree d.registry
      → Dict.has d.registry.connections
          (waiting client channel sign endpoint draws.session_id draws.codes m).code
        ≡ false
      → Dict.get d.tracker.tracker
          (waiting client channel sign endpoint draws.session_id draws.codes m).code
        ≡ none
      → (let code = (waiting client channel sign endpoint draws.session_id draws.codes m).code in
          ((create_session_handler client channel sign endpoint fetch draws true post
              (some req)
              m).0
            ≡ encode
                (created (record {
                  jwt = jwt;
                  server_ws_endpoint = "";
                  session_id = code;
                  temp_user_id = draws.user_id;
                }))
                no_response)
          × ((validate_code_handler client channel sign endpoint user_id lost true post
                (some (record { code = code; user_name = name }))
                (create_session_handler client channel sign endpoint fetch draws true post
                  (some req)
                  m).1).0
              ≡ encode
                  (created (record {
                    jwt = jwt';
                    server_ws_endpoint = endpoint;
                    session_id = code;
                    temp_user_id = user_id;
                  }))
                  no_response)
          × Returns
              (opening writes post_answers cache parse code quiz
                (jwt, socket)
                (jwt', socket')
                d
                tags)
              (λ out.
                (out.0 ≡ (welcome code draws.user_id, welcome code user_id))
                × IsHosted out.1 quiz
                    (context_of (host_token client channel sign endpoint draws req m) socket)
                    (context_of (generate_user_token user_id code name role_participant) socket')
                × Returns
                    (question_started writes post_answers cache code
                      ("question" ∷ code ∷ "start" ∷ [])
                      out.1)
                    (IsAsked out.1 quiz
                      (context_of (host_token client channel sign endpoint draws req m) socket)
                      (context_of
                        (generate_user_token user_id code name role_participant)
                        socket'))))
  unfolding generate_user_token
  create_join_connect draws req m r fetch quiz b jwt jwt' user_id name lost d tags socket socket'
        saved fetched published signed signed' apart some_question v free new unknown =
      let code = (waiting client channel sign endpoint draws.session_id draws.codes m).code in
      let host = host_token client channel sign endpoint draws req m in
      let player = generate_user_token user_id code name role_participant in
      let (made, joined) =
        create_session_handler_lem client channel sign endpoint laws draws req m r saved fetch quiz
          b jwt user_id name lost jwt' fetched published signed signed' in
      (
        ap (λ p. p.0) made,
        ap
              (λ (p : Reply × SessionManager R B).
                (validate_code_handler client channel sign endpoint user_id lost true post
                  (some (record { code = code; user_name = name })) p.1).0)
              made
            ∙ joined,
        Returns-mono
            (opening writes post_answers cache parse code quiz (jwt, socket) (jwt', socket') d tags)
            _ _
            (opening_lem writes post_answers cache parse jwt jwt' host player socket socket' quiz
              (shows host jwt signed) (checks host jwt signed) (shows player jwt' signed')
              (checks player jwt' signed') refl refl refl apart d tags v free new unknown)
            (λ out (greeted, hosted). (
              greeted,
              hosted,
              hosted_first writes up post_answers cache (context_of host socket)
                  (context_of player socket') quiz refl refl refl refl refl some_question out.1
                  hosted,
            )),
      )
