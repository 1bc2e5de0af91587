-- ===== src/RealTime/Redis/Quizzes.antt =====
-- The quizzes in the store of backend-go/real_time/cache/redis/redis.go: what one operation does to
-- the quiz of every session, and the list of all of them.
use try_it.Prelude.{
  ℕ, ◌≡◌, refl, sym, ap, subst, ◌∙◌, ◌⊎◌, inl, inr, String, Option, none, some, ◌==◌, eq_iff,
  if◌then◌else◌, Bool-cases,
}
use try_it.Prelude.Int.{ℤ}
use try_it.Shared.Errors.{Result, ok, err, Result-cases}
use try_it.Shared.Name.{IsName}
use try_it.Shared.Quiz.{OngoingQuiz}
use try_it.RealTime.Cache.{value_of, moved}
use try_it.RealTime.Redis.{
  RedisCommands, Json, quiz_key, then_result, set_session_quiz, get_session_quiz,
  set_question_index,
}
use try_it.RealTime.Redis.Laws.{Entry, plain, text_of, CommandLaws, JsonLaws}
use try_it.RealTime.Redis.Keys.{quiz_key-eq}

module _ {R : Type 0} (redis : RedisCommands R) (rounds : R → ℕ) (laws : CommandLaws redis rounds)
    (json : Json OngoingQuiz) where
  -- The quiz that an entry holds.
  abbrev pub quiz_from : Option Entry → Result OngoingQuiz
  quiz_from e = then_result (text_of e) json.unmarshal

  abbrev pub quiz_entry : R → String → Option Entry
  quiz_entry r sid = laws.entry r (quiz_key sid)

  pub get_session_quiz-entry :
      (r : R) (sid : String) → get_session_quiz redis json r sid ≡ quiz_from (quiz_entry r sid)
  unfolding get_session_quiz
  get_session_quiz-entry r sid =
      ap (λ (x : Result String). then_result x json.unmarshal) (laws.get_reads r (quiz_key sid))

  -- The quizzes of the store are in keys that were made of names, and they decode.
  abbrev pub IsQuiz : String → Option Entry → Type 0
  IsQuiz sid e = (e ≡ none) ⊎ (IsName sid × ((q : OngoingQuiz) × (quiz_from e ≡ ok q)))

  abbrev pub IsSound : R → Type 0
  IsSound r = (sid : String) → IsQuiz sid (quiz_entry r sid)

  -- A step that writes at most the entry of one session.
  abbrev pub Writes : R → R → String → Option Entry → Type 0
  Writes r r' sid e = (j : String) → quiz_entry r' j ≡ (if sid == j then e else quiz_entry r j)

  pub IsSound-Writes :
      (r r' : R) (sid : String) (e : Option Entry)
      → Writes r r' sid e
      → IsQuiz sid e
      → IsSound r
      → IsSound r'
  IsSound-Writes r r' sid e w q s j = subst (IsQuiz j) (sym (w j)) (elim (Bool-cases (sid == j)) [
    | inl same ↦ rw same (subst (λ (k : String). IsQuiz k e) ((eq_iff sid j).0 same) q)
    | inr other ↦ rw other (s j)
  ])

  pub stored-Writes :
      (r r' : R) (sid : String) (e : Option Entry)
      → Writes r r' sid e
      → (j : String)
      → value_of (get_session_quiz redis json r' j)
        ≡ (if sid == j then value_of (quiz_from e) else value_of (get_session_quiz redis json r j))
  stored-Writes r r' sid e w j =
      rw (get_session_quiz-entry r' j, get_session_quiz-entry r j, w j)
        (elim (Bool-cases (sid == j)) [ inl same ↦ rw same refl | inr other ↦ rw other refl ])

  module _ (docs : JsonLaws json) where
    -- The document of a quiz.
    abbrev pub body : OngoingQuiz → String
    body quiz = (docs.marshal_works quiz).0

    pub set_session_quiz-set :
        (r : R) (sid : String) (quiz : OngoingQuiz)
        → set_session_quiz redis json r sid quiz
          ≡ redis.set r (quiz_key sid) (body quiz) 86400000000000
    unfolding set_session_quiz
    set_session_quiz-set r sid quiz = rw ((docs.marshal_works quiz).1, set_session_quiz) refl

    set_session_quiz-Writes :
        (r : R) (sid : String) (quiz : OngoingQuiz)
        → Writes r (set_session_quiz redis json r sid quiz).0 sid (some (plain (body quiz)))
    set_session_quiz-Writes r sid quiz j = rw (set_session_quiz-set r sid quiz) (
        laws.set_writes r (quiz_key sid) (body quiz) 86400000000000 (quiz_key j)
        ∙ rw (quiz_key-eq sid j) refl)

    decodes : (quiz : OngoingQuiz) → quiz_from (some (plain (body quiz))) ≡ ok quiz
    decodes quiz = docs.unmarshal_reads quiz (body quiz) (docs.marshal_works quiz).1

    pub set_session_quiz-IsSound :
        (r : R) (sid : String) (quiz : OngoingQuiz)
        → IsName sid
        → IsSound r
        → IsSound (set_session_quiz redis json r sid quiz).0
    set_session_quiz-IsSound r sid quiz h =
        IsSound-Writes r _ sid _ (set_session_quiz-Writes r sid quiz)
          (inr (h, (quiz, decodes quiz)))

    pub set_session_quiz-stored :
        (r : R) (sid : String) (quiz : OngoingQuiz) (j : String)
        → value_of (get_session_quiz redis json (set_session_quiz redis json r sid quiz).0 j)
          ≡ (if sid == j then some quiz else value_of (get_session_quiz redis json r j))
    set_session_quiz-stored r sid quiz j =
        stored-Writes r _ sid _ (set_session_quiz-Writes r sid quiz) j ∙ rw (decodes quiz) refl

    -- The index is written where there is a quiz; else nothing is.
    set_question_index-known :
        (r : R) (sid : String) (idx : ℤ) (quiz : OngoingQuiz)
        → get_session_quiz redis json r sid ≡ ok quiz
        → set_question_index redis json r sid idx
          ≡ set_session_quiz redis json r sid (record quiz { curr_question_idx = idx })
    unfolding set_question_index
    set_question_index-known r sid idx quiz e = rw (e, set_question_index) refl

    set_question_index-unknown :
        (r : R) (sid : String) (idx : ℤ) (failed : String)
        → get_session_quiz redis json r sid ≡ err failed
        → set_question_index redis json r sid idx ≡ (r, some failed)
    unfolding set_question_index
    set_question_index-unknown r sid idx failed e = rw (e, set_question_index) refl

    pub set_question_index-IsSound :
        (r : R) (sid : String) (idx : ℤ)
        → IsName sid
        → IsSound r
        → IsSound (set_question_index redis json r sid idx).0
    set_question_index-IsSound r sid idx h s =
        elim (Result-cases (get_session_quiz redis json r sid)) [
          | inl (quiz, e) ↦
              rw (set_question_index-known r sid idx quiz e) (set_session_quiz-IsSound r sid _ h s)
          | inr (failed, e) ↦ rw (set_question_index-unknown r sid idx failed e) s
        ]

    pub set_question_index-stored :
        (r : R) (sid : String) (idx : ℤ) (j : String)
        → value_of (get_session_quiz redis json (set_question_index redis json r sid idx).0 j) ≡ (
            if sid == j
            then moved idx (value_of (get_session_quiz redis json r sid))
            else value_of (get_session_quiz redis json r j))
    set_question_index-stored r sid idx j =
        elim (Result-cases (get_session_quiz redis json r sid)) [
          | inl (quiz, e) ↦
              rw (set_question_index-known r sid idx quiz e, e)
                (set_session_quiz-stored r sid (record quiz { curr_question_idx = idx }) j)
          | inr (failed, e) ↦
              rw (set_question_index-unknown r sid idx failed e, e)
                (elim (Bool-cases (sid == j)) [
                  | inl same ↦ rw same (
                      ap value_of (
                        subst (λ (k : String). get_session_quiz redis json r k ≡ err failed)
                          ((eq_iff sid j).0 same) e))
                  | inr other ↦ rw other refl
                ])
        ]
