-- ===== src/RealTime/Tracker/Answers.antt =====
-- What the tracker does with answers: `AddParticipant` and `RecordAnswer`.
use try_it.Prelude.{
  ℕ, ◌<◌, String, ◌≡◌, refl, inl, inr, ◌&&◌, Option, none, some, List, arith, length, length-set,
  length-replicate, set, done, panics, Returns, eq_iff, Option-cases, if◌then◌else◌, ◌==◌, ◌∙◌,
  eq_refl,
}
use try_it.Prelude.Int.{pos, negsuc}
use try_it.Prelude.Dict
use try_it.Prelude.Dict.{Dict, get-put}
use try_it.Shared.Quiz.{OngoingQuiz, UserAnswer, empty_answer, len}
use try_it.RealTime.Cache.{Cache}
use try_it.RealTime.Tracker.{
  QuizTracker, quiz_of, or_nil, blank_answers, ensure_user, write_answer, add_participant,
  record_answer,
}
use try_it.RealTime.Tracker.Valid.{
  IsValid, Agree, InRange, RowsFit, put-RowsFit, get-RowsFit, put_answers-Agree,
}

-- The row of answers of a user in a session, and the row that a write starts from.
abbrev pub row_of : {C : Type 0} → QuizTracker C → String → String → Option (List UserAnswer)
row_of t sid uid = Dict.get (or_nil (Dict.get t.answers sid)) uid

abbrev pub or_blank : ℕ → Option (List UserAnswer) → List UserAnswer
or_blank n none = blank_answers n
or_blank n (some row) = row

abbrev pub row_or_blank : {C : Type 0} → QuizTracker C → String → String → List UserAnswer
row_or_blank t sid uid = or_blank (len (quiz_of t sid).quiz_data) (row_of t sid uid)

-- In a valid tracker a session with a quiz has a table.
Agree-table :
    (q : OngoingQuiz) (o : Option (Dict (List UserAnswer)))
    → Agree (some q) o
    → (users : Dict (List UserAnswer)) × (o ≡ some users)
      × InRange q.curr_question_idx (len q.quiz_data)
      × RowsFit (len q.quiz_data) users
Agree-table q none a = absurd a
Agree-table q (some users) a = (users, refl, a.0, a.1)

module _ {C : Type 0} (t : QuizTracker C) (sid uid : String) (users : Dict (List UserAnswer)) where
  -- The tracker with this row in this table.
  abbrev with_row : List UserAnswer → QuizTracker C
  with_row row = record t { answers = Dict.put t.answers sid (Dict.put users uid row) }

  module _ (table : Dict.get t.answers sid ≡ some users) where
    ensure_user_known :
        (row : List UserAnswer) → Dict.get users uid ≡ some row → ensure_user t sid uid ≡ done t
    unfolding ensure_user
    ensure_user_known row e = rw (table, ensure_user) (rw e)

    ensure_user_fresh :
        Dict.get users uid ≡ none
        → ensure_user t sid uid ≡ done (with_row (blank_answers (len (quiz_of t sid).quiz_data)))
    unfolding ensure_user
    ensure_user_fresh e = rw (table, ensure_user) (rw e)

    write_answer_lem :
        (row : List UserAnswer) (i : ℕ) (a : UserAnswer)
        → Dict.get users uid ≡ some row
        → i < length row
        → write_answer t sid uid (pos i) a ≡ done (with_row (set row i a))
    unfolding write_answer
    write_answer_lem row i a e h = ground arith

    -- Every row after one row is put.
    row_of-with_row :
        (row : List UserAnswer) (s v : String)
        → row_of (with_row row) s v ≡ (if (sid == s) && (uid == v) then some row else row_of t s v)
    row_of-with_row row s v = ground (
      arith,
      table,
      get-put t.answers sid s (Dict.put users uid row),
      get-put users uid v row,
      eq_iff sid s,
      eq_iff uid v,
    )

    with_row-IsValid :
        (q : OngoingQuiz) (row : List UserAnswer)
        → IsValid t
        → Dict.get t.tracker sid ≡ some q
        → length row ≡ len q.quiz_data
        → IsValid (with_row row)
    with_row-IsValid q row v e h =
        let a : Agree (some q) (some users) = rw (e, table) at (v.agree sid) in
        record {
          agree =
              put_answers-Agree t.tracker t.answers sid _ v.agree
                (rw e (a.0, put-RowsFit (len q.quiz_data) users uid row a.1 h));
        }

-- Session `sid` of `t'` has this row for `uid`; all else of `t` is as it was, but for the store.
pub record RowWritten {C : Type 0} (t t' : QuizTracker C) (sid uid : String) (row : List UserAnswer)
    : Type 0 where
  pub valid : IsValid t'
  pub same_quizzes : t'.tracker ≡ t.tracker
  pub rows :
      (s v : String) → row_of t' s v ≡ (if (sid == s) && (uid == v) then some row else row_of t s v)

module _ {C : Type 0} (t : QuizTracker C) (sid uid : String) (q : OngoingQuiz) (v : IsValid t)
    (known : Dict.get t.tracker sid ≡ some q) where
  pub table_of :
      (users : Dict (List UserAnswer)) × (Dict.get t.answers sid ≡ some users)
      × InRange q.curr_question_idx (len q.quiz_data)
      × RowsFit (len q.quiz_data) users
  table_of = Agree-table q (Dict.get t.answers sid) (rw known at (v.agree sid))

  with_row-RowWritten :
      (users : Dict (List UserAnswer)) (row : List UserAnswer)
      → Dict.get t.answers sid ≡ some users
      → length row ≡ len q.quiz_data
      → RowWritten t (with_row t sid uid users row) sid uid row
  with_row-RowWritten users row table h = record {
    valid = with_row-IsValid t sid uid users table q row v known h;
    same_quizzes = refl;
    rows = row_of-with_row t sid uid users table row;
  }

  -- After `ensure_user` the user has a row of full length: the old one, or a blank one.
  ensure_user_lem :
      (t' : QuizTracker C) × (ensure_user t sid uid ≡ done t')
      × RowWritten t t' sid uid (row_or_blank t sid uid)
      × (t'.cache ≡ t.cache)
      × (length (row_or_blank t sid uid) ≡ len q.quiz_data)
  ensure_user_lem =
      let (users, table, range, fit) = table_of in
      elim (Option-cases (Dict.get users uid)) [
        | inl new ↦ fresh users table new
        | inr (row, old) ↦
            kept users row table old (get-RowsFit (len q.quiz_data) users uid row fit old)
      ]
    where
      blank_length : length (blank_answers (len (quiz_of t sid).quiz_data)) ≡ len q.quiz_data
      blank_length = rw known (length-replicate (len q.quiz_data) empty_answer)

      fresh :
          (users : Dict (List UserAnswer))
          → Dict.get t.answers sid ≡ some users
          → Dict.get users uid ≡ none
          → (t' : QuizTracker C) × (ensure_user t sid uid ≡ done t')
            × RowWritten t t' sid uid (row_or_blank t sid uid)
            × (t'.cache ≡ t.cache)
            × (length (row_or_blank t sid uid) ≡ len q.quiz_data)
      fresh users table new = (
        with_row t sid uid users (blank_answers (len (quiz_of t sid).quiz_data)),
        ensure_user_fresh t sid uid users table new,
        rw (table, new) (with_row-RowWritten users _ table blank_length),
        refl,
        rw (table, new) blank_length,
      )

      kept :
          (users : Dict (List UserAnswer)) (row : List UserAnswer)
          → Dict.get t.answers sid ≡ some users
          → Dict.get users uid ≡ some row
          → length row ≡ len q.quiz_data
          → (t' : QuizTracker C) × (ensure_user t sid uid ≡ done t')
            × RowWritten t t' sid uid (row_or_blank t sid uid)
            × (t'.cache ≡ t.cache)
            × (length (row_or_blank t sid uid) ≡ len q.quiz_data)
      kept users row table old full = (
        t,
        ensure_user_known t sid uid users table row old,
        record {
          valid = v;
          same_quizzes = refl;
          rows = λ s w. ground (arith, table, old, eq_iff sid s, eq_iff uid w);
        },
        refl,
        rw (table, old) full,
      )

  -- A user joins: a user that has a row keeps it, another gets a blank row, and nothing else changes.
  pub add_participant_lem :
      Returns
        (add_participant t sid uid)
        (λ t'. RowWritten t t' sid uid (row_or_blank t sid uid) × (t'.cache ≡ t.cache))
  unfolding add_participant
  add_participant_lem = let (t', e, w, c, l) = ensure_user_lem in rw e (w, c)

  -- A write at place `i` of a row that is there.
  write_row_lem :
      (row : List UserAnswer) (i : ℕ) (a : UserAnswer)
      → row_of t sid uid ≡ some row
      → length row ≡ len q.quiz_data
      → i < len q.quiz_data
      → (t' : QuizTracker C) × (write_answer t sid uid (pos i) a ≡ done t')
        × RowWritten t t' sid uid (set row i a)
        × (t'.cache ≡ t.cache)
  write_row_lem row i a e full h =
      let (users, table, range, fit) = table_of in
      let here : Dict.get users uid ≡ some row = rw table at e in
      (
        with_row t sid uid users (set row i a),
        write_answer_lem t sid uid users table row i a here (rw full h),
        with_row-RowWritten users _ table (rw (length-set row i a) full),
        refl,
      )

-- Two writes of one row leave the second.
RowWritten-trans :
    {C : Type 0} {t t1 t2 : QuizTracker C} {sid uid : String} {row row' : List UserAnswer}
    → RowWritten t t1 sid uid row
    → RowWritten t1 t2 sid uid row'
    → RowWritten t t2 sid uid row'
RowWritten-trans w w' = record {
  valid = w'.valid;
  same_quizzes = w'.same_quizzes ∙ w.same_quizzes;
  rows = λ s v. ground (arith, w.rows s v, w'.rows s v);
}

module _ {C : Type 0} (cache : Cache C) where
  -- In a valid tracker an answer to question `i`, the current one, is written at place `i` of the
  -- user's row (a blank one, if the user had none) and into the store; no other row changes, no
  -- quiz does, and the tracker stays valid.
  pub record_answer_lem :
      (t : QuizTracker C) (sid uid : String) (q : OngoingQuiz) (i : ℕ) (a : UserAnswer)
      → IsValid t
      → Dict.get t.tracker sid ≡ some q
      → q.curr_question_idx ≡ pos i
      → Returns (record_answer cache t sid uid a) (λ t'.
        RowWritten t t' sid uid (set (row_or_blank t sid uid) i a)
        × (t'.cache ≡ (cache.record_answer t.cache sid uid (pos i) a).0))
  unfolding record_answer
  record_answer_lem t sid uid q i a v known idx =
      let (t1, joined, w1, c1, full) = ensure_user_lem t sid uid q v known in
      let known1 : Dict.get t1.tracker sid ≡ some q = rw w1.same_quizzes known in
      let row1 : row_of t1 sid uid ≡ some (row_or_blank t sid uid) =
        rw (w1.rows sid uid) (simp eq_refl) in
      let range : i < len q.quiz_data = rw idx at (table_of t sid uid q v known).2 in
      let (t2, wrote, w2, c2) =
        write_row_lem t1 sid uid q w1.valid known1 (row_or_blank t sid uid) i a row1 full range in
      let here : (quiz_of t1 sid).curr_question_idx ≡ pos i = rw known1 idx in
      let w = RowWritten-trans w1 w2 in
      rw (joined, here, wrote)
        (
          record {
            valid = record { agree = w.valid.agree };
            same_quizzes = w.same_quizzes;
            rows = w.rows;
          },
          rw (c2, c1),
        )

  -- Before the first question an answer panics, whatever the tracker holds.
  pub record_answer_before_start :
      (t : QuizTracker C) (sid uid : String) (q : OngoingQuiz) (n : ℕ) (a : UserAnswer)
      → Dict.get t.tracker sid ≡ some q
      → q.curr_question_idx ≡ negsuc n
      → record_answer cache t sid uid a ≡ panics
  unfolding record_answer ensure_user write_answer
  record_answer_before_start t sid uid q n a known idx = ground arith

  -- Without a table an answer panics, and so does a new participant.
  pub record_answer_no_table :
      (t : QuizTracker C) (sid uid : String) (a : UserAnswer)
      → Dict.get t.answers sid ≡ none
      → record_answer cache t sid uid a ≡ panics
  unfolding record_answer ensure_user
  record_answer_no_table t sid uid a h = rw (h, ensure_user) refl
