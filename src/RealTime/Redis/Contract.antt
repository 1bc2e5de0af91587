-- ===== src/RealTime/Redis/Contract.antt =====
-- The client of backend-go/real_time/cache/redis/redis.go keeps the promises of a store.
use try_it.Prelude.{
  ℕ, ◌≡◌, ◌≢◌, refl, sym, ap, subst, ◌∙◌, inl, inr, String, false, Option, none, ◌==◌, arith,
  eq_iff, Bool-cases,
}
use try_it.Prelude.Int.{ℤ}
use try_it.Prelude.Text.{itoa}
use try_it.Shared.Errors.{ok, Result-cases}
use try_it.Shared.Name.{IsName}
use try_it.Shared.Quiz.{OngoingQuiz, UserAnswer}
use try_it.RealTime.Cache.{CacheLaws, value_of}
use try_it.RealTime.Redis.{
  RedisCommands, Json, quiz_key, answers_key, set_session_quiz, delete_session, record_answer,
  redis_cache,
}
use try_it.RealTime.Redis.Laws.{Entry, CommandLaws, JsonLaws}
use try_it.RealTime.Redis.Keys.{quiz_key_inj, quiz_key-ne-answers_key}
use try_it.RealTime.Redis.Quizzes.{
  IsSound, IsQuiz, quiz_entry, quiz_from, Writes, IsSound-Writes, stored-Writes,
  get_session_quiz-entry, set_session_quiz-set, set_session_quiz-IsSound, set_session_quiz-stored,
  set_question_index-IsSound, set_question_index-stored,
}
use try_it.RealTime.Redis.Deletion.{delete_session_lem, delete_session_quiz}
use try_it.RealTime.Redis.Listing.{get_all_sessions_lem}

differ : (a b : String) → (a == b) ≡ false → a ≢ b
differ a b h e = ground (arith, eq_iff a b, h, e)

not_answers : (sid uid j : String) → (answers_key sid uid == quiz_key j) ≡ false
not_answers sid uid j =
    ground (arith, eq_iff (answers_key sid uid) (quiz_key j), quiz_key-ne-answers_key j sid uid)

module _ {R : Type 0} (redis : RedisCommands R) (rounds : R → ℕ) (laws : CommandLaws redis rounds)
    (quizzes : Json OngoingQuiz) (answers : Json UserAnswer) where
  abbrev entry_of : R → String → Option Entry
  entry_of r sid = quiz_entry redis rounds laws quizzes r sid

  -- A deletion writes the quiz of its session only.
  delete_session-Writes :
      (r : R) (sid : String)
      → IsName sid
      → Writes redis rounds laws quizzes r (delete_session redis (rounds r) r sid).0 sid none
  delete_session-Writes r sid h j = elim (Bool-cases (sid == j)) [
    | inl same ↦ rw same (
        subst (λ (k : String). entry_of (delete_session redis (rounds r) r sid).0 k ≡ none)
          ((eq_iff sid j).0 same) (delete_session_quiz redis rounds laws r sid h))
    | inr other ↦
        rw other
          (delete_session_lem redis rounds laws r sid "" (quiz_key j) h
            (λ e. differ sid j other (sym (quiz_key_inj j sid e)))
            (quiz_key-ne-answers_key j sid)).3
  ]

  -- An answer writes no quiz.
  record_answer-kept :
      (r : R) (sid uid : String) (n : ℤ) (a : UserAnswer) (j : String)
      → entry_of (record_answer redis answers r sid uid n a).0 j ≡ entry_of r j
  unfolding record_answer
  record_answer-kept r sid uid n a j = elim (Result-cases (answers.marshal a)) [
    | inl (body, e) ↦
        rw (e, record_answer)
          (laws.hset_writes r (answers_key sid uid) (itoa n) body (quiz_key j)
            ∙ rw (not_answers sid uid j) refl)
    | inr (failed, e) ↦ rw (e, record_answer) refl
  ]

  client_laws :
      JsonLaws quizzes
      → CacheLaws (redis_cache redis quizzes answers rounds) (IsSound redis rounds laws quizzes)
  client_laws docs = record {
    set_keeps =
        λ c sid quiz h s. set_session_quiz-IsSound redis rounds laws quizzes docs c sid quiz h s;
    set_stores = set_session_quiz-stored redis rounds laws quizzes docs;
    index_keeps =
        λ c sid idx h s. set_question_index-IsSound redis rounds laws quizzes docs c sid idx h s;
    index_stores = set_question_index-stored redis rounds laws quizzes docs;
    delete_keeps = λ c sid h s.
        IsSound-Writes redis rounds laws quizzes c _ sid none (delete_session-Writes c sid h)
          (inl refl) s;
    delete_stores = λ c sid j h.
        stored-Writes redis rounds laws quizzes c _ sid none (delete_session-Writes c sid h) j;
    record_keeps = λ c sid uid n a s j.
        subst (IsQuiz redis rounds laws quizzes j) (sym (record_answer-kept c sid uid n a j)) (s j);
    record_stores = λ c sid uid n a j. ap value_of (
        get_session_quiz-entry redis rounds laws quizzes
          (record_answer redis answers c sid uid n a).0 j
        ∙ ap (quiz_from redis rounds laws quizzes) (record_answer-kept c sid uid n a j)
        ∙ sym (get_session_quiz-entry redis rounds laws quizzes c j));
    lists_all = get_all_sessions_lem redis rounds laws quizzes;
  }

  pub redis_cache-CacheLaws :
      JsonLaws quizzes
      → CacheLaws (redis_cache redis quizzes answers rounds) (IsSound redis rounds laws quizzes)
        × ((r : R) (sid : String) (quiz : OngoingQuiz)
            → (document : String) × (quizzes.marshal quiz ≡ ok document)
              × (set_session_quiz redis quizzes r sid quiz
                  ≡ redis.set r (quiz_key sid) document 86400000000000))
  redis_cache-CacheLaws docs = (
    client_laws docs,
    λ r sid quiz. (
      (docs.marshal_works quiz).0,
      (docs.marshal_works quiz).1,
      set_session_quiz-set redis rounds laws quizzes docs r sid quiz,
    ),
  )
