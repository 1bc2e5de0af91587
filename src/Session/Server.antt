-- ===== src/Session/Server.antt =====
-- backend-go/SessionService/httpServer/httpServer.go: the routes and what a request does. Matching a
-- request against the routes is gorilla/mux's: `find`. Starting and stopping the server, and the pages
-- under `/swagger/`, are left out.
pub mod Methods
use try_it.Prelude.{
  ℕ, ◌≡◌, ◌⊎◌, refl, ap, inl, inr, String, Bool, true, false, Option, none, some, List, [], ◌∷◌,
  Bool-cases, if◌then◌else◌, Option-cases,
}
use try_it.Prelude.Dict
use try_it.Prelude.Dict.{Dict}
use try_it.Shared.Errors.{Result, ok, err}
use try_it.Shared.Token.{UserToken}
use try_it.Http.{Method, get, post, put, delete, options, other, is_post, no_response, write_header}
use try_it.Session.Storage.{RedisClient}
use try_it.Session.Broker.{Channel}
use try_it.Session.Manager.{SessionManager, Fetched}
use try_it.Session.Handlers.{
  CreateSessionReq, ValidateCodeReq, Reply, Draws, create_session_handler,
  create_session_handler_mock, validate_code_handler, validate_session_code_handler,
  start_session_handler, next_question_handler, session_end_handler, health_handler,
}
use try_it.Session.Rooms.{ConnectionRegistry, ConnectReply, delete_user_handler, web_socket_handler}

pub data Target : Type 0 where
  swagger create_session join_session next_question start_session validate_code : Target
  create_session_mock end_session health delete_user web_socket : Target

-- A pattern or a prefix of the path, the methods where the route names them, and the handler.
pub record Route : Type 0 where
  pub pattern : String
  pub methods : Option (List Method)
  pub target : Target

abbrev posts : String → Target → Route
posts pattern target = record {
  pattern = pattern;
  methods = some (post ∷ options ∷ []);
  target = target;
}

abbrev any_method : String → Target → Route
any_method pattern target = record { pattern = pattern; methods = none; target = target }

-- The routes of `registerHandlers`, in its order.
unfoldable pub register_handlers : List Route
register_handlers =
    any_method "/swagger/" swagger
    ∷ posts "/sessions" create_session
    ∷ posts "/join" join_session
    ∷ posts "/session/{id}/nextQuestion" next_question
    ∷ posts "/start" start_session
    ∷ posts "/validate" validate_code
    ∷ posts "/sessionsMock" create_session_mock
    ∷ posts "/session/{id}/end" end_session
    ∷ posts "/healthz" health
    ∷ any_method "/delete-user" delete_user
    ∷ any_method "/ws" web_socket
    ∷ []

-- What a request brings: its query, what its body decodes to, what is drawn for it, and whether the
-- connection takes the reply or is upgraded to a socket.
pub record Request : Type 0 where
  pub method : Method
  pub path : String
  pub query : Dict String
  pub create_body : Option CreateSessionReq
  pub join_body : Option ValidateCodeReq
  pub code_body : Option String
  pub draws : Draws
  pub sent : Bool
  pub lost : String
  pub upgrade : Option ℕ

-- `r.URL.Query().Get(name)`
abbrev pub query_get : Request → String → String
query_get req name = elim (Dict.get req.query name) [ none ↦ "" | some v ↦ v ]

-- The manager of the handlers and the registry that `registerHandlers` makes.
pub record Site (R B : Type 0) : Type 0 where
  pub manager : SessionManager R B
  pub rooms : ConnectionRegistry

-- What the router finds: a route with the `id` of the path, or why there is none.
pub data Found : Type 0 where
  matched : Route → String → Found
  wrong_method not_found : Found

pub data Answer : Type 0 where
  http : Reply → Answer
  socket : ConnectReply → Answer
  page : Answer

-- `corsMiddleware` around a handler: a preflight ends there, every other request goes on.
unfoldable pub cors_middleware : {A : Type 0} → (A → Answer × A) → Method → A → Answer × A
cors_middleware next options a = (http (write_header 204 no_response), a)
cors_middleware next verb a = next a

module _ {R B : Type 0} (client : RedisClient R) (channel : Channel B)
    (sign : UserToken → Result String) (parse : String → Result UserToken) (endpoint : String)
    (fetch : String → Fetched) where
  abbrev on_manager : ConnectionRegistry → Reply × SessionManager R B → Answer × Site R B
  on_manager rooms (w, m) = (http w, record { manager = m; rooms = rooms })

  -- The handler of a route on the path's `id`.
  unfoldable pub serve_target : Target → String → Request → Site R B → Answer × Site R B
  serve_target swagger id req site = (page, site)
  serve_target create_session id req site = on_manager site.rooms (
      create_session_handler client channel sign endpoint fetch req.draws req.sent req.method
        req.create_body site.manager)
  serve_target join_session id req site = on_manager site.rooms (
      validate_code_handler client channel sign endpoint req.draws.user_id req.lost req.sent
        req.method req.join_body site.manager)
  serve_target next_question id req site =
      on_manager site.rooms
        (next_question_handler client channel sign endpoint req.method id site.manager)
  serve_target start_session id req site = on_manager site.rooms (
      start_session_handler client channel sign endpoint fetch req.method (query_get req "id")
        (query_get req "code") site.manager)
  serve_target validate_code id req site = (
    http (
        validate_session_code_handler client channel sign endpoint req.method req.code_body
          site.manager),
    site,
  )
  serve_target create_session_mock id req site = on_manager site.rooms (
      create_session_handler_mock client channel sign endpoint req.draws req.sent req.method
        req.create_body site.manager)
  serve_target end_session id req site =
      on_manager site.rooms
        (session_end_handler client channel sign endpoint req.method id site.manager)
  serve_target health id req site =
      (http (health_handler client channel sign endpoint req.method site.manager), site)
  serve_target delete_user id req site =
      let (w, rooms) =
        delete_user_handler (query_get req "code") (query_get req "userId") site.rooms in
      (http w, record site { rooms = rooms })
  serve_target web_socket id req site =
      let (w, rooms) = web_socket_handler parse req.upgrade (query_get req "token") site.rooms in
      (socket w, record site { rooms = rooms })

  -- A request, over the router.
  unfoldable pub serve :
      (List Route → Method → String → Found) → Request → Site R B → Answer × Site R B
  unfolding serve_target cors_middleware
  serve find req site = elim (find register_handlers req.method req.path) [
    | not_found ↦ (http (write_header 404 no_response), site)
    | wrong_method ↦ (http (write_header 405 no_response), site)
    | matched route id ↦ cors_middleware (serve_target route.target id req) req.method site
  ]
