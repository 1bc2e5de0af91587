-- ===== src/Session/Server/Methods.antt =====
-- What the methods of requests can change over the routes of
-- backend-go/SessionService/httpServer/httpServer.go.
use try_it.Prelude.{◌≡◌, ◌⊎◌, refl, inl, inr, String, false, List}
use try_it.Shared.Errors.{Result}
use try_it.Shared.Token.{UserToken}
use try_it.Http.{Method, get, post, put, delete, options, other, is_post}
use try_it.Session.Storage.{RedisClient}
use try_it.Session.Broker.{Channel}
use try_it.Session.Manager.{Fetched}
use try_it.Session.Handlers.{
  create_session_handler, create_session_handler_mock, validate_code_handler, start_session_handler,
  next_question_handler, session_end_handler,
}
use try_it.Session.Server.{
  Target, Route, Request, Site, Found, Answer, matched, wrong_method, not_found, register_handlers,
  serve_target, serve, cors_middleware, swagger, create_session, join_session, next_question,
  start_session, validate_code, create_session_mock, end_session, health, delete_user, web_socket,
}

Found-cases :
    (f : Found)
    → ((route : Route) × (id : String) × (f ≡ matched route id))
      ⊎ (f ≡ wrong_method)
      ⊎ (f ≡ not_found)
Found-cases (matched route id) = inl (route, id, refl)
Found-cases wrong_method = inr (inl refl)
Found-cases not_found = inr (inr refl)

-- What a method may leave behind.
abbrev pub Keeps : {R B : Type 0} → Method → Site R B → Site R B → Type 0
Keeps post before after = Unit
Keeps options before after = after ≡ before
Keeps verb before after = after.manager ≡ before.manager

module _ {R B : Type 0} (client : RedisClient R) (channel : Channel B)
    (sign : UserToken → Result String) (parse : String → Result UserToken) (endpoint : String)
    (fetch : String → Fetched) where
  serve_target-manager :
      (target : Target) (id : String) (req : Request) (site : Site R B)
      → is_post req.method ≡ false
      → (serve_target client channel sign parse endpoint fetch target id req site).1.manager
        ≡ site.manager
  unfolding serve_target create_session_handler create_session_handler_mock validate_code_handler
      next_question_handler start_session_handler session_end_handler
  serve_target-manager swagger id req site h = refl
  serve_target-manager create_session id req site h = rw h refl
  serve_target-manager join_session id req site h = rw h refl
  serve_target-manager next_question id req site h = rw h refl
  serve_target-manager start_session id req site h = rw h refl
  serve_target-manager validate_code id req site h = refl
  serve_target-manager create_session_mock id req site h = rw h refl
  serve_target-manager end_session id req site h = rw h refl
  serve_target-manager health id req site h = refl
  serve_target-manager delete_user id req site h = refl
  serve_target-manager web_socket id req site h = refl

  Keeps-same : (verb : Method) (site : Site R B) → Keeps verb site site
  Keeps-same post site = tt
  Keeps-same get site = refl
  Keeps-same put site = refl
  Keeps-same delete site = refl
  Keeps-same options site = refl
  Keeps-same other site = refl

  behind_cors-Keeps :
      (verb : Method) (next : Site R B → Answer × Site R B) (site : Site R B)
      → (is_post verb ≡ false → (next site).1.manager ≡ site.manager)
      → Keeps verb site (cors_middleware next verb site).1
  unfolding cors_middleware
  behind_cors-Keeps post next site h = tt
  behind_cors-Keeps get next site h = h refl
  behind_cors-Keeps put next site h = h refl
  behind_cors-Keeps delete next site h = h refl
  behind_cors-Keeps options next site h = refl
  behind_cors-Keeps other next site h = h refl

  -- Whatever the router finds for a request: a preflight changes nothing, and a request of any other
  -- method but POST leaves the sessions, the store and the broker as they were, so that it can change
  -- no more than who is in the waiting rooms.
  pub serve-Keeps :
      (find : List Route → Method → String → Found) (req : Request) (site : Site R B)
      → Keeps req.method site (serve client channel sign parse endpoint fetch find req site).1
  unfolding serve
  serve-Keeps find req site = elim (Found-cases (find register_handlers req.method req.path)) [
    | inl (route, id, e) ↦
        rw (e, serve)
          (behind_cors-Keeps req.method
            (serve_target client channel sign parse endpoint fetch route.target id req) site
            (serve_target-manager route.target id req site))
    | inr (inl e) ↦ rw (e, serve) (Keeps-same req.method site)
    | inr (inr e) ↦ rw (e, serve) (Keeps-same req.method site)
  ]
