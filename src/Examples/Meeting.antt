-- ===== src/Examples/Meeting.antt =====
-- A host and a participant of a session over both services, with signing in memory.
use try_it.Prelude.{
  ◌≡◌, ◌⊎◌, refl, ap, sym, ◌∙◌, inl, inr, String, Bool, true, false, ◌&&◌, some, [], ◌∷◌, Returns,
  ℕ, nat_eq, arith, if◌then◌else◌, ◌==◌, Bool-cases, eq_iff,
}
use try_it.Prelude.Dict
use try_it.Shared.Errors.{Result, ok, err}
use try_it.Shared.Token.{UserToken, role_admin, role_participant}
use try_it.Http.{post, no_response, encode}
use try_it.Session.Storage.{session_key, stored_fields, code_exist}
use try_it.Session.Broker.{Event}
use try_it.Session.Manager.{generate_user_token, draw_code}
use try_it.Session.Handlers.{created, create_session_handler, validate_code_handler}
use try_it.Hosting.{create_join_connect}
use try_it.Shared.Quiz.{len}
use try_it.Hosting.First.{IsAsked}
use try_it.Hosting.Opening.{IsHosted, opening}
use try_it.Examples.Quiz.{quiz_one, no_store, no_board, online, online-up}
use try_it.Examples.Sessions.{
  Memory, memory, memory-Laws, keeping, empty_service, draws_one, request_one, fetch_one,
}
use try_it.RealTime.Consumer.{HandlerDeps, question_started}
use try_it.RealTime.Registry.{new_connection_registry}
use try_it.RealTime.Tracker.{new_quiz_tracker}
use try_it.RealTime.Tracker.Valid.{IsValid-new}
use try_it.RealTime.Handler.{welcome}
use try_it.RealTime.Joining.{context_of}

abbrev hana : UserToken
hana = record {
  user_id = "u1";
  user_name = "Host";
  user_type = role_admin;
  session_id = "ABC123";
  exp = 10000;
}

abbrev bob : UserToken
bob = record {
  user_id = "u2";
  user_name = "Bob";
  user_type = role_participant;
  session_id = "ABC123";
  exp = 10000;
}

abbrev same_token : UserToken → UserToken → Bool
same_token a b =
    (a.user_id == b.user_id)
    && ((a.user_name == b.user_name)
        && ((a.user_type == b.user_type) && ((a.session_id == b.session_id) && nat_eq a.exp b.exp)))

abbrev token_of : String → String → String → String → ℕ → UserToken
token_of i n t s e = record { user_id = i; user_name = n; user_type = t; session_id = s; exp = e }

same_token_lem : (a b : UserToken) → same_token a b ≡ true → a ≡ b
same_token_lem a b h =
    let e0 : a.user_id ≡ b.user_id = ground (arith, h, eq_iff a.user_id b.user_id) in
    let e1 : a.user_name ≡ b.user_name = ground (arith, h, eq_iff a.user_name b.user_name) in
    let e2 : a.user_type ≡ b.user_type = ground (arith, h, eq_iff a.user_type b.user_type) in
    let e3 : a.session_id ≡ b.session_id = ground (arith, h, eq_iff a.session_id b.session_id) in
    let e4 : a.exp ≡ b.exp = ground (arith, h) in
    ap (λ (x : String). token_of x a.user_name a.user_type a.session_id a.exp) e0
    ∙ ap (λ (x : String). token_of b.user_id x a.user_type a.session_id a.exp) e1
    ∙ ap (λ (x : String). token_of b.user_id b.user_name x a.session_id a.exp) e2
    ∙ ap (λ (x : String). token_of b.user_id b.user_name b.user_type x a.exp) e3
    ∙ ap (λ (x : ℕ). token_of b.user_id b.user_name b.user_type b.session_id x) e4

-- Signing for these two users only.
abbrev sign_two : UserToken → Result String
sign_two token =
    if same_token token hana
    then ok "hana.jwt"
    else if same_token token bob
    then ok "bob.jwt"
    else err "no key"

abbrev parse_two : String → Result UserToken
parse_two jwt =
    if jwt == "hana.jwt" then ok hana else if jwt == "bob.jwt" then ok bob else err "malformed"

abbrev text_of : Result String → String
text_of (ok s) = s
text_of (err e) = ""

abbrev is_ok : Result String → Bool
is_ok (ok s) = true
is_ok (err e) = false

sign_two-cases :
    (token : UserToken) (jwt : String)
    → sign_two token ≡ ok jwt
    → ((token ≡ hana) × ("hana.jwt" ≡ jwt)) ⊎ ((token ≡ bob) × ("bob.jwt" ≡ jwt))
sign_two-cases token jwt h = elim (Bool-cases (same_token token hana)) [
  | inl e ↦ inl (same_token_lem token hana e, ap text_of (rw e at h))
  | inr e ↦ elim (Bool-cases (same_token token bob)) [
    | inl f ↦ inr (same_token_lem token bob f, ap text_of (rw f at (rw e at h)))
    | inr f ↦
        let bad : false ≡ true = ap is_ok (rw f at (rw e at h)) in absurd (ground (arith, bad))
  ]
]

checks_two : (token : UserToken) (jwt : String) → sign_two token ≡ ok jwt → parse_two jwt ≡ ok token
checks_two token jwt h = elim (sign_two-cases token jwt h) [
  | inl (e, f) ↦ ap parse_two (sym f) ∙ ap ok (sym e)
  | inr (e, f) ↦ ap parse_two (sym f) ∙ ap ok (sym e)
]

shows_two : (token : UserToken) (jwt : String) → sign_two token ≡ ok jwt → (jwt == "") ≡ false
shows_two token jwt h = elim (sign_two-cases token jwt h) [
  | inl (e, f) ↦ ap (λ (s : String). s == "") (sym f)
  | inr (e, f) ↦ ap (λ (s : String). s == "") (sym f)
]

abbrev hana_saved : Memory
hana_saved =
    (memory.hset [] (session_key "ABC123") (
      stored_fields (record {
        id = "id";
        code = "ABC123";
        state = "waiting";
        server_ws_endpoint = "ws://h:1/ws";
      }))).0

abbrev idle : HandlerDeps (Unit {0})
idle = record { tracker = new_quiz_tracker tt; registry = new_connection_registry }

create_join_connect_example :
    ((create_session_handler memory keeping sign_two "ws://h:1/ws" fetch_one draws_one true post
        (some request_one)
        empty_service).0
      ≡ encode
          (created (record {
            jwt = "hana.jwt";
            server_ws_endpoint = "";
            session_id = "ABC123";
            temp_user_id = "u1";
          }))
          no_response)
    × ((validate_code_handler memory keeping sign_two "ws://h:1/ws" "u2" "broken pipe" true post
          (some (record { code = "ABC123"; user_name = "Bob" }))
          (create_session_handler memory keeping sign_two "ws://h:1/ws" fetch_one draws_one true
            post
            (some request_one)
            empty_service).1).0
        ≡ encode
            (created (record {
              jwt = "bob.jwt";
              server_ws_endpoint = "ws://h:1/ws";
              session_id = "ABC123";
              temp_user_id = "u2";
            }))
            no_response)
    × Returns
        (opening online no_board no_store parse_two "ABC123" quiz_one
          ("hana.jwt", 7)
          ("bob.jwt", 8)
          idle
          [])
        (λ out.
          (out.0 ≡ (welcome "ABC123" "u1", welcome "ABC123" "u2"))
          × IsHosted out.1 quiz_one (context_of hana 7) (context_of bob 8)
          × Returns
              (question_started online no_board no_store "ABC123"
                ("question" ∷ "ABC123" ∷ "start" ∷ [])
                out.1)
              (IsAsked out.1 quiz_one (context_of hana 7) (context_of bob 8)))
unfolding generate_user_token new_connection_registry new_quiz_tracker Dict.get Dict.has len
    draw_code code_exist
create_join_connect_example =
    create_join_connect memory memory-Laws keeping sign_two parse_two checks_two shows_two
      "ws://h:1/ws" online online-up no_board no_store draws_one request_one empty_service
      hana_saved fetch_one quiz_one
      (("session.start", Event.session_start (record { session_id = "ABC123"; quiz = quiz_one }))
        ∷ [])
      "hana.jwt" "bob.jwt" "u2" "Bob" "broken pipe" idle [] 7 8 refl refl refl refl refl refl
      (omega arith) (IsValid-new tt) (refl, refl) refl refl
