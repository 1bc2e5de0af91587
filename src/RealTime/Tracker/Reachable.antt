-- ===== src/RealTime/Tracker/Reachable.antt =====
-- The trackers that the service can have while it runs.
use try_it.Prelude.{
  ℕ, ◌≡◌, ◌⊎◌, refl, subst, inl, inr, String, Option, none, some, List, Run, done, panics, Returns,
  Option-cases,
}
use try_it.Prelude.Int.{ℤ, pos, negsuc}
use try_it.Prelude.Dict
use try_it.Prelude.Dict.{Dict}
use try_it.Shared.Quiz.{Quiz, OngoingQuiz, UserAnswer, len}
use try_it.RealTime.Cache.{Cache}
use try_it.RealTime.Tracker.{
  QuizTracker, new_quiz_tracker, new_session, delete_session, inc_question_idx,
  set_curr_question_idx, ensure_user, add_participant, record_answer,
}
use try_it.RealTime.Tracker.Valid.{
  IsValid, InRange, Agree, set_curr_question_idx-IsValid, IsValid-new, new_session-IsValid,
  delete_session-IsValid, inc_question_idx-IsValid,
}
use try_it.RealTime.Tracker.Answers.{
  add_participant_lem, record_answer_lem, record_answer_before_start,
}

-- A run that returned `a` has the property that it returns with.
Returns-done : {A : Type 0} (m : Run A) (P : A → Type 0) (a : A) → m ≡ done a → Returns m P → P a
Returns-done m P a e h = subst (λ (x : Run _). Returns x P) e h

panics-done : {A : Type 0} (m : Run A) (a : A) → m ≡ panics → m ≡ done a → ⊥
panics-done m a p e = cc

ℤ-cases : (x : ℤ) → ((i : ℕ) × (x ≡ pos i)) ⊎ ((n : ℕ) × (x ≡ negsuc n))
ℤ-cases (pos i) = inl (i, refl)
ℤ-cases (negsuc n) = inr (n, refl)

-- Without a quiz there is no table, and a user cannot join.
Agree-none : (o : Option (Dict (List UserAnswer))) → Agree none o → o ≡ none
Agree-none none a = refl
Agree-none (some users) a = absurd a

module _ {C : Type 0} (t : QuizTracker C) (sid uid : String) (v : IsValid t)
    (unknown : Dict.get t.tracker sid ≡ none) where
  no_table : Dict.get t.answers sid ≡ none
  no_table = Agree-none (Dict.get t.answers sid) (rw unknown at (v.agree sid))

  add_participant-unknown : add_participant t sid uid ≡ panics
  unfolding add_participant ensure_user
  add_participant-unknown = rw (no_table, ensure_user) refl

  record_answer-unknown :
      (cache : Cache C) (a : UserAnswer) → record_answer cache t sid uid a ≡ panics
  unfolding record_answer ensure_user
  record_answer-unknown cache a = rw (no_table, ensure_user) refl

module _ {C : Type 0} (cache : Cache C) where
  -- A tracker that starts empty, after calls of its methods, in any order, that returned.
  -- `SetCurrQuestionIdx`, which nothing in the service calls, is among them where it sets an index
  -- that a session with a quiz can have. A restart is not among them.
  pub data Reachable : QuizTracker C → Type 0 where
    start : (c : C) → Reachable (new_quiz_tracker c)
    session :
        (t : QuizTracker C) (sid : String) (z : Quiz)
        → Reachable t
        → Reachable (new_session cache t sid z)
    deleted :
        (t : QuizTracker C) (sid : String) → Reachable t → Reachable (delete_session cache t sid)
    placed :
        (t : QuizTracker C) (sid : String) (i : ℤ) (q : OngoingQuiz)
        → Reachable t
        → Dict.get t.tracker sid ≡ some q
        → InRange i (len q.quiz_data)
        → Reachable (set_curr_question_idx cache t sid i)
    moved :
        (t : QuizTracker C) (sid : String)
        → Reachable t
        → Reachable (inc_question_idx cache t sid).1
    joined :
        (t t' : QuizTracker C) (sid uid : String)
        → Reachable t
        → add_participant t sid uid ≡ done t'
        → Reachable t'
    answered :
        (t t' : QuizTracker C) (sid uid : String) (a : UserAnswer)
        → Reachable t
        → record_answer cache t sid uid a ≡ done t'
        → Reachable t'

  pub add_participant-IsValid :
      (t t' : QuizTracker C) (sid uid : String)
      → IsValid t
      → add_participant t sid uid ≡ done t'
      → IsValid t'
  add_participant-IsValid t t' sid uid v e = elim (Option-cases (Dict.get t.tracker sid)) [
    | inl unknown ↦ absurd (panics-done _ t' (add_participant-unknown t sid uid v unknown) e)
    | inr (q, known) ↦
        let (w, same) = Returns-done _ _ t' e (add_participant_lem t sid uid q v known) in w.valid
  ]

  pub record_answer-IsValid :
      (t t' : QuizTracker C) (sid uid : String) (a : UserAnswer)
      → IsValid t
      → record_answer cache t sid uid a ≡ done t'
      → IsValid t'
  record_answer-IsValid t t' sid uid a v e = elim (Option-cases (Dict.get t.tracker sid)) [
    | inl unknown ↦ absurd (panics-done _ t' (record_answer-unknown t sid uid v unknown cache a) e)
    | inr (q, known) ↦ elim (ℤ-cases q.curr_question_idx) [
      | inl (i, at_i) ↦
          let (w, kept) =
            Returns-done _ _ t' e (record_answer_lem cache t sid uid q i a v known at_i) in
          w.valid
      | inr (n, before) ↦
          absurd
            (panics-done _ t' (record_answer_before_start cache t sid uid q n a known before) e)
    ]
  ]

  -- From an empty tracker, however NewSession, DeleteSession, IncQuestionIdx, AddParticipant and
  -- RecordAnswer are called, in any order and for any sessions and users, and SetCurrQuestionIdx for
  -- sessions that have a quiz with an index that is -1 or names a question of it, with no restart and as
  -- long as none of them panicked: a session has a table of answers if and only if it has a quiz, its
  -- index is -1 or names a question, and every row has as many places as the quiz has questions.
  pub Reachable-IsValid : (t : QuizTracker C) → Reachable t → IsValid t
  Reachable-IsValid _ (start c) = IsValid-new c
  Reachable-IsValid _ (session t sid z h) =
      new_session-IsValid cache t sid z (Reachable-IsValid t h)
  Reachable-IsValid _ (deleted t sid h) = delete_session-IsValid cache t sid (Reachable-IsValid t h)
  Reachable-IsValid _ (placed t sid i q h known range) =
      set_curr_question_idx-IsValid cache t sid i q (Reachable-IsValid t h) known range
  Reachable-IsValid _ (moved t sid h) = inc_question_idx-IsValid cache t sid (Reachable-IsValid t h)
  Reachable-IsValid _ (joined t t' sid uid h e) =
      add_participant-IsValid t t' sid uid (Reachable-IsValid t h) e
  Reachable-IsValid _ (answered t t' sid uid a h e) =
      record_answer-IsValid t t' sid uid a (Reachable-IsValid t h) e
