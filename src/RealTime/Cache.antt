-- ===== src/RealTime/Cache.antt =====
-- The interface `Cache` of backend-go/real_time/cache/cache.go, over the state `C` of the store.
use try_it.Prelude.{String, ◌≡◌, ◌==◌, Option, none, some, List, if◌then◌else◌}
use try_it.Prelude.Int.{ℤ}
use try_it.Prelude.Dict
use try_it.Prelude.Dict.{Dict}
use try_it.Shared.Errors.{Result, ok, err, ErrorOr}
use try_it.Shared.Name.{IsName}
use try_it.Shared.Quiz.{OngoingQuiz, UserAnswer}

pub record Cache (C : Type 0) : Type 0 where
  pub set_session_quiz : C → String → OngoingQuiz → C × ErrorOr
  pub get_session_quiz : C → String → Result OngoingQuiz
  pub delete_session : C → String → C × ErrorOr
  pub get_all_sessions : C → Result (Dict OngoingQuiz)
  pub set_question_index : C → String → ℤ → C × ErrorOr
  pub get_question_index : C → String → Result ℤ
  pub record_answer : C → String → String → ℤ → UserAnswer → C × ErrorOr
  pub get_all_answers : C → String → Result (Dict (List UserAnswer))

abbrev pub value_of {ℓ} : {A : Type ℓ} → Result A → Option A
value_of (ok a) = some a
value_of (err e) = none

-- The quiz with another index.
abbrev pub moved : ℤ → Option OngoingQuiz → Option OngoingQuiz
moved idx none = none
moved idx (some quiz) = some (record quiz { curr_question_idx = idx })

-- The quiz of a session that the store gives back.
abbrev pub stored : {C : Type 0} → Cache C → C → String → Option OngoingQuiz
stored cache c sid = value_of (cache.get_session_quiz c sid)

-- What a store promises in the states that are sound for it: it is a dictionary from the sessions to
-- their quizzes, and the answers are kept apart from it.
pub record CacheLaws {C : Type 0} (cache : Cache C) (IsSound : C → Type 0) : Type 0 where
  pub set_keeps :
      (c : C) (sid : String) (quiz : OngoingQuiz)
      → IsName sid
      → IsSound c
      → IsSound (cache.set_session_quiz c sid quiz).0
  pub set_stores :
      (c : C) (sid : String) (quiz : OngoingQuiz) (j : String)
      → stored cache (cache.set_session_quiz c sid quiz).0 j
        ≡ (if sid == j then some quiz else stored cache c j)
  pub index_keeps :
      (c : C) (sid : String) (idx : ℤ)
      → IsName sid
      → IsSound c
      → IsSound (cache.set_question_index c sid idx).0
  pub index_stores :
      (c : C) (sid : String) (idx : ℤ) (j : String)
      → stored cache (cache.set_question_index c sid idx).0 j
        ≡ (if sid == j then moved idx (stored cache c sid) else stored cache c j)
  pub delete_keeps :
      (c : C) (sid : String) → IsName sid → IsSound c → IsSound (cache.delete_session c sid).0
  pub delete_stores :
      (c : C) (sid j : String)
      → IsName sid
      → stored cache (cache.delete_session c sid).0 j
        ≡ (if sid == j then none else stored cache c j)
  pub record_keeps :
      (c : C) (sid uid : String) (n : ℤ) (a : UserAnswer)
      → IsSound c
      → IsSound (cache.record_answer c sid uid n a).0
  pub record_stores :
      (c : C) (sid uid : String) (n : ℤ) (a : UserAnswer) (j : String)
      → stored cache (cache.record_answer c sid uid n a).0 j ≡ stored cache c j
  pub lists_all :
      (c : C)
      → IsSound c
      → (m : Dict OngoingQuiz) × (cache.get_all_sessions c ≡ ok m)
        × ((j : String) → Dict.get m j ≡ stored cache c j)
