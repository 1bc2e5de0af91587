-- ===== src/RealTime/Redis.antt =====
-- backend-go/real_time/cache/redis/redis.go: the store of the quizzes and the answers, over the
-- commands of the Redis client with the state `R` of the server, and over the JSON documents of the
-- two types that it keeps.
pub mod Laws
pub mod Scan
pub mod Keys
pub mod Quizzes
pub mod Deletion
pub mod Listing
pub mod Contract
pub mod Answers
pub mod RoundTrip
use try_it.Prelude.{
  ℕ, zero, suc, String, ◌≡◌, none, some, Option, List, [], ◌∷◌, ◌++◌, if◌then◌else◌,
}
use try_it.Prelude.Int.{ℤ, pos}
use try_it.Prelude.Dict
use try_it.Prelude.Dict.{Dict}
use try_it.Prelude.Text.{join, itoa}
use try_it.Prelude.Split.{split}
use try_it.Shared.Errors.{Result, ok, err, ErrorOr}
use try_it.Shared.Quiz.{OngoingQuiz, UserAnswer, empty_ongoing}
use try_it.RealTime.Cache.{Cache}

-- The commands that the client sends. A time to live is in nanoseconds; `scan` takes a cursor, a
-- pattern and a count, and gives keys and the next cursor.
pub record RedisCommands (R : Type 0) : Type 0 where
  pub get : R → String → Result String
  pub set : R → String → String → ℕ → R × ErrorOr
  pub del : R → List String → R × ErrorOr
  pub scan : R → ℕ → String → ℕ → Result (List String × ℕ)
  pub hset : R → String → String → String → R × ErrorOr
  pub hgetall : R → String → Result (Dict String)
  pub expire : R → String → ℕ → R × ErrorOr
  pub ping : R → ErrorOr

-- `json.Marshal` and `json.Unmarshal` at one type.
pub record Json (A : Type 0) : Type 0 where
  pub marshal : A → Result String
  pub unmarshal : String → Result A

abbrev pub quiz_key : String → String
quiz_key sid = join "session:" (join sid ":quiz_state")

abbrev pub answers_key : String → String → String
answers_key sid uid = join "session:" (join sid (join ":user:" (join uid ":answers")))

-- The two patterns that are looked for.
abbrev pub sessions_pattern : String
sessions_pattern = "session:*:quiz_state"

abbrev pub answers_pattern : String → String
answers_pattern sid = join "session:" (join sid ":user:*:answers")

-- `24 * time.Hour`
abbrev pub day : ℕ
day = 86400000000000

-- `parts[1]` where there are at least three parts, and `parts[3]` where there are at least five.
abbrev pub session_part : List String → Option String
session_part (a ∷ sid ∷ c ∷ more) = some sid
session_part parts = none

abbrev pub user_part : List String → Option String
user_part (a ∷ b ∷ c ∷ uid ∷ e ∷ more) = some uid
user_part parts = none

-- `quiz, _ := ...`
abbrev pub quiz_or_empty : Result OngoingQuiz → OngoingQuiz
quiz_or_empty (ok q) = q
quiz_or_empty (err e) = empty_ongoing

abbrev pub or_no_answers : Option (List UserAnswer) → List UserAnswer
or_no_answers none = []
or_no_answers (some given) = given

abbrev pub then_result : {S T : Type 0} → Result S → (S → Result T) → Result T
then_result (ok s) f = f s
then_result (err e) f = err e

module _ {R : Type 0} (redis : RedisCommands R) where
  open redis use {get, set, del, scan, hset, hgetall, expire, ping}

  unfoldable pub ping_store : R → ErrorOr
  ping_store r = ping r

  unfoldable pub expire_key : R → String → ℕ → R × ErrorOr
  expire_key r key ttl = expire r key ttl

  -- The loop over the cursor of SCAN that the three operations below have, with the body `round`. It
  -- gives up after `fuel` calls.
  unfoldable pub scan_loop :
      {S : Type 0} → (S → List String → Result S) → R → String → ℕ → ℕ → S → Result S
  scan_loop round r pattern zero cursor s = err "no end of SCAN"
  scan_loop round r pattern (suc fuel) cursor s = elim (scan r cursor pattern 100) [
    | err e ↦ err e
    | ok (keys, next) ↦ elim (round s keys) [
      | err e ↦ err e
      | ok s' ↦ elim next [ zero ↦ ok s' | suc n ↦ scan_loop round r pattern fuel (suc n) s' ]
    ]
  ]

  -- `keys = append(keys, matchedKeys...)`
  abbrev pub collect : List String → List String → Result (List String)
  collect keys matched = ok (keys ++ matched)

  -- What is deleted; the list is never empty.
  abbrev pub delete_keys : R → Result (List String) → R × ErrorOr
  delete_keys r (err e) = (r, some e)
  delete_keys r (ok []) = (r, none)
  delete_keys r (ok (key ∷ keys)) = del r (key ∷ keys)

  unfoldable pub delete_session : ℕ → R → String → R × ErrorOr
  unfolding scan_loop
  delete_session fuel r sid =
      delete_keys r
        (scan_loop {S = List String} collect r (answers_pattern sid) fuel 0 (quiz_key sid ∷ []))

  module _ (json : Json OngoingQuiz) where
    open json use {marshal, unmarshal}

    unfoldable pub set_session_quiz : R → String → OngoingQuiz → R × ErrorOr
    set_session_quiz r sid quiz = elim (marshal quiz) [
      | err e ↦ (r, some e)
      | ok body ↦ set r (quiz_key sid) body day
    ]

    unfoldable pub get_session_quiz : R → String → Result OngoingQuiz
    get_session_quiz r sid = then_result (get r (quiz_key sid)) unmarshal

    unfoldable pub set_question_index : R → String → ℤ → R × ErrorOr
    unfolding get_session_quiz set_session_quiz
    set_question_index r sid idx = elim (get_session_quiz r sid) [
      | err e ↦ (r, some e)
      | ok quiz ↦ set_session_quiz r sid (record quiz { curr_question_idx = idx })
    ]

    unfoldable pub get_question_index : R → String → Result ℤ
    unfolding get_session_quiz
    get_question_index r sid =
        then_result (get_session_quiz r sid) (λ quiz. ok quiz.curr_question_idx)

    -- The body of the loop over the keys of a page.
    unfoldable pub add_session : R → Dict OngoingQuiz → Option String → Dict OngoingQuiz
    unfolding get_session_quiz
    add_session r sessions none = sessions
    add_session r sessions (some sid) =
        Dict.put sessions sid (quiz_or_empty (get_session_quiz r sid))

    unfoldable pub add_sessions : R → Dict OngoingQuiz → List String → Dict OngoingQuiz
    unfolding add_session
    add_sessions r sessions [] = sessions
    add_sessions r sessions (key ∷ keys) =
        add_sessions r (add_session r sessions (session_part (split b':' key))) keys

    unfoldable pub get_all_sessions : ℕ → R → Result (Dict OngoingQuiz)
    unfolding scan_loop add_sessions
    get_all_sessions fuel r =
        scan_loop (λ sessions keys. ok (add_sessions r sessions keys)) r sessions_pattern fuel 0 []

  module _ (json : Json UserAnswer) where
    open json use {marshal, unmarshal}

    unfoldable pub record_answer : R → String → String → ℤ → UserAnswer → R × ErrorOr
    record_answer r sid uid question answer = elim (marshal answer) [
      | err e ↦ (r, some e)
      | ok body ↦ hset r (answers_key sid uid) (itoa question) body
    ]

    -- `result[userID] = append(result[userID], ans)` for every document that decodes.
    unfoldable pub add_answers :
        Dict (List UserAnswer) → String → List String → Dict (List UserAnswer)
    add_answers result uid [] = result
    add_answers result uid (raw ∷ more) = elim (unmarshal raw) [
      | err e ↦ add_answers result uid more
      | ok ans ↦
          add_answers (Dict.put result uid (or_no_answers (Dict.get result uid) ++ ans ∷ [])) uid
            more
    ]

    -- The loop over the keys of a page.
    unfoldable pub add_users :
        R → Dict (List UserAnswer) → List String → Result (Dict (List UserAnswer))
    unfolding add_answers
    add_users r result [] = ok result
    add_users r result (key ∷ keys) = elim (user_part (split b':' key)) [
      | none ↦ add_users r result keys
      | some uid ↦ elim (hgetall r key) [
        | err e ↦ err e
        | ok hash ↦ add_users r (add_answers result uid (Dict.values hash)) keys
      ]
    ]

    unfoldable pub get_all_answers : ℕ → R → String → Result (Dict (List UserAnswer))
    unfolding scan_loop add_users
    get_all_answers fuel r sid =
        scan_loop (λ result keys. add_users r result keys) r (answers_pattern sid) fuel 0 []

-- The client as the store of the tracker, where `rounds` bounds the calls of one iteration.
abbrev pub redis_cache :
    {R : Type 0} → RedisCommands R → Json OngoingQuiz → Json UserAnswer → (R → ℕ) → Cache R
redis_cache redis quizzes answers rounds = record {
  set_session_quiz = set_session_quiz redis quizzes;
  get_session_quiz = get_session_quiz redis quizzes;
  delete_session = λ r sid. delete_session redis (rounds r) r sid;
  get_all_sessions = λ r. get_all_sessions redis quizzes (rounds r) r;
  set_question_index = set_question_index redis quizzes;
  get_question_index = get_question_index redis quizzes;
  record_answer = record_answer redis answers;
  get_all_answers = λ r sid. get_all_answers redis answers (rounds r) r sid;
}
