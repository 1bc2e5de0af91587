-- ===== src/Session/Manager.antt =====
-- backend-go/SessionService/Game/Game.go: the session manager over its store and its broker. A method
-- takes and returns both. What it draws (`uuid.New`, `GenerateSessionCode`) and what the quiz
-- service answers are arguments.
use try_it.Prelude.{
  ℕ, zero, suc, String, Bool, true, false, none, some, List, [], ◌∷◌, if◌then◌else◌, nat_eq,
}
use try_it.Prelude.Text.{join, decimal}
use try_it.Shared.Errors.{Result, ok, err, ErrorOr}
use try_it.Shared.Quiz.{AnswerOption, Quiz}
use try_it.Shared.Token.{UserToken}
use try_it.Session.Storage.{
  Session, RedisClient, save_session, delete_session, code_exist, add_player_to_session,
  get_players_for_session, check_redis_alive,
}
use try_it.Session.Broker.{
  QuizMessage, Channel, publish_session_start, publish_question_start, publish_session_end,
  check_rabbit_alive,
}

pub record SessionManager (R B : Type 0) : Type 0 where
  pub cache : R
  pub rabbit : B

-- What `http.Get` and the body of its response give.
pub data Fetched : Type 0 where
  no_answer : String → Fetched
  answer : ℕ → Result (Result Quiz) → Fetched

-- `Session{}`
abbrev pub empty_session : Session
empty_session = record { id = ""; code = ""; state = ""; server_ws_endpoint = "" }

-- An error with a text in front of it.
abbrev pub wrapped : String → ErrorOr → ErrorOr
wrapped text none = none
wrapped text (some e) = some (join text e)

abbrev choice : String → Bool → AnswerOption
choice text correct = record { text = text; is_correct = correct }

-- The quiz of `SessionStartMock`.
abbrev pub mock_quiz : Quiz
mock_quiz = record {
  questions =
      record {
        kind = "single_choice";
        text = "What is the output of print(2 ** 3)?";
        image_url = "RRRRR";
        options = choice "6" false ∷ choice "8" true ∷ choice "9" false ∷ choice "5" false ∷ [];
      }
      ∷ record {
        kind = "single_choice";
        text = "Which keyword is used to create a function in Python?";
        image_url = "";
        options =
            choice "func" false
            ∷ choice "function" false
            ∷ choice "def" true
            ∷ choice "define" false
            ∷ [];
      }
      ∷ record {
        kind = "single_choice";
        text = "What data type is the result of: 3 / 2 in Python 3?";
        image_url = "";
        options =
            choice "int" false
            ∷ choice "float" true
            ∷ choice "str" false
            ∷ choice "decimal" false
            ∷ [];
      }
      ∷ [];
}

-- `GenerateUserToken`, with the user's new id. The registered claims hold the time of expiry too.
unfoldable pub generate_user_token : String → String → String → String → UserToken
generate_user_token user_id code user_name user_type = record {
  user_id = user_id;
  user_name = user_name;
  user_type = user_type;
  session_id = code;
  exp = 10000;
}

module _ {R : Type 0} (client : RedisClient R) where
  -- The loop of `NewSession` with `left` tries; `codes i` is what try `i` draws.
  unfoldable pub draw_code : ℕ → ℕ → (ℕ → String) → String → R → String
  draw_code zero i codes code r = code
  draw_code (suc left) i codes code r =
      let again = draw_code left (suc i) codes (codes i) r in
      if code_exist client r (codes i) then again else codes i

module _ {R B : Type 0} (client : RedisClient R) where
  unfoldable pub new_session :
      String → (ℕ → String) → String → SessionManager R B → Result Session × SessionManager R B
  unfolding draw_code
  new_session session_id codes endpoint m =
      let session : Session = record {
        id = session_id;
        code = draw_code client 3 0 codes "" m.cache;
        state = "waiting";
        server_ws_endpoint = endpoint;
      } in
      let (r, failed) = save_session client m.cache session in
      (
        (elim failed [
          | some e ↦ err (join "error saving session to redis: " e)
          | none ↦ ok session
        ]),
        record m { cache = r },
      )

  unfoldable pub validate_code : String → SessionManager R B → Bool
  validate_code code m = code_exist client m.cache code

  unfoldable pub add_player : String → String → SessionManager R B → ErrorOr × SessionManager R B
  add_player code name m =
      let (r, failed) = add_player_to_session client m.cache code name in
      (wrapped "error saving user to redis: " failed, record m { cache = r })

  unfoldable pub get_list_of_users : String → SessionManager R B → Result (List String)
  get_list_of_users code m = elim (get_players_for_session client m.cache code) [
    | err e ↦ err (join "error get user from redis: " e)
    | ok users ↦ ok users
  ]

module _ {R B : Type 0} (client : RedisClient R) (channel : Channel B) where
  -- The publishing at the end of both starts.
  abbrev pub start_with : String → String → Quiz → SessionManager R B → ErrorOr × SessionManager R B
  start_with quiz_uuid sid quiz m =
      let message : QuizMessage = record { session_id = sid; quiz = quiz } in
      let (b, failed) = publish_session_start channel m.rabbit message in
      (
        wrapped (join "error on SessionStart with publish quiz to rabbit " (join quiz_uuid " "))
            failed,
        record m { rabbit = b },
      )

  unfoldable pub session_start :
      (String → Fetched) → String → String → SessionManager R B → ErrorOr × SessionManager R B
  session_start fetch quiz_uuid sid m = elim (fetch (join "http://quiz:8000/api/" quiz_uuid)) [
    | no_answer e ↦ (some (join "error to get quiz from service " (join quiz_uuid (join " " e))), m)
    | answer code body ↦
        if nat_eq code 200
        then elim body [
          | err e ↦ (
            some (join "error on SessionStart with read body " (join quiz_uuid (join ", " e))),
            m,
          )
          | ok (err e) ↦ (
            some (join "error on SessionStart with unmarshal json " (join quiz_uuid (join " " e))),
            m,
          )
          | ok (ok quiz) ↦ start_with quiz_uuid sid quiz m
        ]
        else (some (join "quiz session status code: " (decimal code)), m)
  ]

  unfoldable pub session_start_mock :
      String → String → SessionManager R B → ErrorOr × SessionManager R B
  session_start_mock quiz_uuid sid m = start_with quiz_uuid sid mock_quiz m

  unfoldable pub next_question : String → SessionManager R B → ErrorOr × SessionManager R B
  next_question code m =
      let (b, failed) = publish_question_start channel m.rabbit code "aboba" in
      (wrapped "error to send message to rabbit " failed, record m { rabbit = b })

  -- `SessionEnd` once the store has answered.
  unfoldable pub end_after :
      String → SessionManager R B → R × ErrorOr → ErrorOr × SessionManager R B
  end_after code m (r, some e) =
      (some (join "error delete session from redis: " e), record m { cache = r })
  end_after code m (r, none) =
      let (b, unsent) = publish_session_end channel m.rabbit code "aboba" in
      (wrapped "error to send message to rabbit " unsent, record { cache = r; rabbit = b })

  unfoldable pub session_end : String → SessionManager R B → ErrorOr × SessionManager R B
  unfolding end_after
  session_end code m = end_after code m (delete_session client m.cache code)

  unfoldable pub check_service : SessionManager R B → ErrorOr
  check_service m = elim (check_redis_alive client m.cache) [
    | some e ↦ some (join "redis error " e)
    | none ↦ wrapped "rabbit error " (check_rabbit_alive channel m.rabbit)
  ]
