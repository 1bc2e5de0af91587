-- ===== src/RealTime/Tracker.antt =====
-- backend-go/real_time/ws/quiz_tracker.go: the quiz of every session and the answers given so far.
-- A method takes and returns the tracker. Each holds the tracker's own mutex from its first line to
-- its last and calls no other method meanwhile, so a method is one step; `inc_question_idx` and the
-- middle of `get_leaderboard` hold no lock, and are modelled as if nothing came between.
pub mod Valid
pub mod Answers
pub mod Progress
pub mod Reachable
pub mod Kept
use try_it.Prelude.{
  ℕ, ◌-◌, ◌<◌, String, ◌≡◌, Bool, true, false, Option, none, some, List, [], ◌∷◌, length, get_elem?,
  set, replicate, Run, done, panics, or_panic, ◌>>=◌, ltb, if◌then◌else◌,
}
use try_it.Prelude.Int.{ℤ, pos, negsuc, ◌+ℤ◌, leb_ℤ, ltb_ℤ}
use try_it.Prelude.Dict
use try_it.Prelude.Dict.{Dict}
use try_it.Shared.Errors.{Result, ok, err}
use try_it.Shared.Quiz.{
  AnswerOption, Question, Quiz, OngoingQuiz, UserAnswer, empty_ongoing, empty_answer,
  get_correct_option, get_question, len,
}
use try_it.RealTime.Cache.{Cache}

pub record QuizTracker (C : Type 0) : Type 0 where
  pub answers : Dict (Dict (List UserAnswer))
  pub tracker : Dict OngoingQuiz
  pub cache : C

abbrev pub or_zero : Option OngoingQuiz → OngoingQuiz
or_zero none = empty_ongoing
or_zero (some q) = q

abbrev pub or_nil {ℓ} : {A : Type ℓ} → Option (Dict A) → Dict A
or_nil none = []
or_nil (some m) = m

-- `xs[i]` and `xs[i] = v`, which panic out of range.
abbrev pub at_index {ℓ} : {A : Type ℓ} → List A → ℤ → Run A
at_index xs (pos i) = or_panic (get_elem? xs i)
at_index xs (negsuc n) = panics

abbrev pub set_index {ℓ} : {A : Type ℓ} → List A → ℤ → A → Run (List A)
set_index xs (pos i) v = if ltb i (length xs) then done (set xs i v) else panics
set_index xs (negsuc n) v = panics

-- `make([]UserAnswer, n)`
abbrev pub blank_answers : ℕ → List UserAnswer
blank_answers n = replicate n empty_answer

module _ {C : Type 0} where
  -- `q.tracker[sessionId]`
  abbrev pub quiz_of : QuizTracker C → String → OngoingQuiz
  quiz_of t sid = or_zero (Dict.get t.tracker sid)

  unfoldable pub get_current_question : QuizTracker C → String → ℤ × Option Question
  get_current_question t sid = elim (Dict.get t.tracker sid) [
    | none ↦ (negsuc 0, none)
    | some q ↦ (q.curr_question_idx, some (get_question q.quiz_data q.curr_question_idx))
  ]

  unfoldable pub get_correct_option_of : QuizTracker C → String → ℤ → ℤ × Option AnswerOption
  get_correct_option_of t sid idx = elim (Dict.get t.tracker sid) [
    | none ↦ (negsuc 0, none)
    | some q ↦ let (i, o) = get_correct_option (get_question q.quiz_data idx) in (pos i, some o)
  ]

  unfoldable pub get_quiz_len : QuizTracker C → String → ℕ
  get_quiz_len t sid = len (quiz_of t sid).quiz_data

  unfoldable pub get_answers : QuizTracker C → String → Dict (List UserAnswer)
  get_answers t sid = or_nil (Dict.get t.answers sid)

  -- The body under `if _, ok := q.answers[sessionId][userId]; !ok`: a write into a nil map panics.
  unfoldable pub ensure_user : QuizTracker C → String → String → Run (QuizTracker C)
  ensure_user t sid uid = elim (Dict.get t.answers sid) [
    | none ↦ panics
    | some users ↦ elim (Dict.get users uid) [
      | some given ↦ done t
      | none ↦
          let fresh : List UserAnswer = blank_answers (len (quiz_of t sid).quiz_data) in
          done (record t { answers = Dict.put t.answers sid (Dict.put users uid fresh) })
    ]
  ]

  unfoldable pub add_participant : QuizTracker C → String → String → Run (QuizTracker C)
  add_participant t sid uid = ensure_user t sid uid

  -- `q.answers[sessionId][userId][qid] = answer`
  unfoldable pub write_answer :
      QuizTracker C → String → String → ℤ → UserAnswer → Run (QuizTracker C)
  write_answer t sid uid qid answer = do
    users ← or_panic (Dict.get t.answers sid)
    given ← or_panic (Dict.get users uid)
    given' ← set_index given qid answer
    done (record t { answers = Dict.put t.answers sid (Dict.put users uid given') })

module _ {C : Type 0} (cache : Cache C) where
  open cache use {
    set_session_quiz, delete_session as cache_delete_session, get_all_sessions, set_question_index,
    record_answer as cache_record_answer,
  }

  unfoldable pub set_curr_question_idx : QuizTracker C → String → ℤ → QuizTracker C
  set_curr_question_idx t sid idx =
      let quiz : OngoingQuiz = record (quiz_of t sid) { curr_question_idx = idx } in
      record t {
        tracker = Dict.put t.tracker sid quiz;
        cache = (set_question_index t.cache sid idx).0;
      }

  -- The rest of `IncQuestionIdx`, for a session that has a quiz.
  unfoldable pub inc_from : QuizTracker C → String → OngoingQuiz → Bool × QuizTracker C
  inc_from t sid quiz =
      let next : ℤ = quiz.curr_question_idx +ℤ pos 1 in
      if leb_ℤ (pos (len quiz.quiz_data)) next then (false, t) else (
        true,
        record t {
          tracker = Dict.put t.tracker sid (record quiz { curr_question_idx = next });
          cache = (set_question_index t.cache sid next).0;
        },
      )

  unfoldable pub inc_question_idx : QuizTracker C → String → Bool × QuizTracker C
  unfolding inc_from
  inc_question_idx t sid = elim (Dict.get t.tracker sid) [
    | none ↦ (false, t)
    | some quiz ↦ inc_from t sid quiz
  ]

  unfoldable pub record_answer : QuizTracker C → String → String → UserAnswer → Run (QuizTracker C)
  record_answer t sid uid answer = do
    t1 ← ensure_user t sid uid
    let qid = (quiz_of t1 sid).curr_question_idx
    t2 ← write_answer t1 sid uid qid answer
    done (record t2 { cache = (cache_record_answer t2.cache sid uid qid answer).0 })

  unfoldable pub new_session : QuizTracker C → String → Quiz → QuizTracker C
  new_session t sid quiz_data = elim (Dict.get t.tracker sid) [
    | some q ↦ t
    | none ↦
        let quiz : OngoingQuiz = record { curr_question_idx = negsuc 0; quiz_data = quiz_data } in
        record {
          tracker = Dict.put t.tracker sid quiz;
          answers = Dict.put t.answers sid [];
          cache = (set_session_quiz t.cache sid quiz).0;
        }
  ]

  unfoldable pub delete_session : QuizTracker C → String → QuizTracker C
  delete_session t sid = elim (Dict.get t.tracker sid) [
    | none ↦ t
    | some q ↦ record {
      tracker = Dict.remove t.tracker sid;
      answers = Dict.remove t.answers sid;
      cache = (cache_delete_session t.cache sid).0;
    }
  ]

  -- On an error the map that comes with it is nil.
  unfoldable pub restore_data : QuizTracker C → QuizTracker C
  restore_data t = elim (get_all_sessions t.cache) [
    | ok quizzes ↦ record t { tracker = quizzes }
    | err e ↦ record t { tracker = [] }
  ]

-- `NewQuizTracker`, with the state of the store that it is given.
unfoldable pub new_quiz_tracker : {C : Type 0} → C → QuizTracker C
new_quiz_tracker c = record { answers = []; tracker = []; cache = c }

-- `SetCache`: the new store, and the quizzes that it holds.
unfoldable pub set_cache : {C : Type 0} → Cache C → QuizTracker C → C → QuizTracker C
unfolding restore_data
set_cache cache t c = restore_data cache (record t { cache = c })
