-- ===== src/RealTime/Answering.antt =====
-- A participant's answer, from the frame to the row and the notice to the admin.
use try_it.Prelude.{
  ℕ, ◌≡◌, refl, ap, String, Bool, true, Option, none, some, List, set, arith, Run, done, panics,
  Returns, ◌>>=◌, Returns-bind,
}
use try_it.Prelude.Int.{ℤ, pos, negsuc, eq_ℤ}
use try_it.Prelude.Dict
use try_it.Shared.Quiz.{OngoingQuiz, UserAnswer, get_question, get_correct_option}
use try_it.RealTime.Cache.{Cache}
use try_it.RealTime.Message.{ServerMessage, ClientMessage, bare, user_answered, user}
use try_it.RealTime.Registry.{ConnectionContext, Attempt, send_to_admin}
use try_it.RealTime.Registry.Delivery.{IsFree}
use try_it.RealTime.Registry.Online.{sent_to, logged, admins_of, send_to_admin-online}
use try_it.Shared.Quiz.{AnswerOption}
use try_it.RealTime.Tracker.{
  QuizTracker, get_current_question, get_correct_option_of, record_answer,
}
use try_it.RealTime.Tracker.Valid.{IsValid}
use try_it.RealTime.Tracker.Answers.{
  RowWritten, row_or_blank, record_answer_lem, record_answer_before_start, record_answer_no_table,
}
use try_it.RealTime.Consumer.{HandlerDeps}
use try_it.RealTime.Handler.{answer_graded, process_answer}

-- What is written for a message to question `i` of a quiz.
abbrev pub graded_at : OngoingQuiz → ℤ → ClientMessage → UserAnswer
graded_at q i msg = record {
  answered = true;
  option = msg.option;
  correct = eq_ℤ msg.option (pos (get_correct_option (get_question q.quiz_data i)).0);
  timestamp = msg.timestamp;
}

abbrev pub answer_notice : String → ServerMessage
answer_notice uid = record (bare user_answered) { payload = user uid }

module _ (writes : List Attempt → ConnectionContext → ServerMessage → Bool) {C : Type 0}
    (cache : Cache C) where
  -- The writes that follow for a session that has a quiz.
  unfoldable record_and_notify :
      ConnectionContext → UserAnswer → HandlerDeps C → Run (HandlerDeps C)
  record_and_notify ctx a d = do
    t ← record_answer cache d.tracker ctx.session_id ctx.user_id a
    r ← send_to_admin writes ctx.session_id (answer_notice ctx.user_id) d.registry
    done (record { tracker = t; registry = r })

  correct_option-known :
      (t : QuizTracker C) (sid : String) (q : OngoingQuiz) (idx : ℤ)
      → Dict.get t.tracker sid ≡ some q
      → q.curr_question_idx ≡ idx
      → get_correct_option_of t sid (get_current_question t sid).0 ≡ (
        pos (get_correct_option (get_question q.quiz_data idx)).0,
        some (get_correct_option (get_question q.quiz_data idx)).1,
      )
  unfolding get_current_question get_correct_option_of
  correct_option-known t sid q idx known here =
      rw (← here) (rw (known, get_correct_option_of) (rw (known, get_current_question) refl))

  process_answer-known :
      (ctx : ConnectionContext) (msg : ClientMessage) (d : HandlerDeps C) (q : OngoingQuiz)
      (idx : ℤ)
      → Dict.get d.tracker.tracker ctx.session_id ≡ some q
      → q.curr_question_idx ≡ idx
      → process_answer writes cache ctx msg d ≡ record_and_notify ctx (graded_at q idx msg) d
  unfolding process_answer answer_graded record_and_notify
  process_answer-known ctx msg d q idx known here =
      ap (λ (c : ℤ × Option AnswerOption). answer_graded writes cache ctx msg c d)
        (correct_option-known d.tracker ctx.session_id q idx known here)

  -- With a valid tracker at question `i`, a free lock and a network that takes every write: the
  -- answer is graded against the place of the question's correct option and written at place `i`
  -- of the sender's row, nothing else in the tracker changes, and the admins get one notice.
  pub process_answer_lem :
      (ctx : ConnectionContext) (msg : ClientMessage) (d : HandlerDeps C) (q : OngoingQuiz) (i : ℕ)
      → ((log : List Attempt) (c : ConnectionContext) (m : ServerMessage) → writes log c m ≡ true)
      → IsFree d.registry
      → IsValid d.tracker
      → Dict.get d.tracker.tracker ctx.session_id ≡ some q
      → q.curr_question_idx ≡ pos i
      → Returns (process_answer writes cache ctx msg d) (λ d'.
        RowWritten d.tracker d'.tracker ctx.session_id ctx.user_id
          (set (row_or_blank d.tracker ctx.session_id ctx.user_id) i (graded_at q (pos i) msg))
        × (d'.registry
            ≡ logged d.registry
                (sent_to (answer_notice ctx.user_id) (admins_of d.registry ctx.session_id))))
  unfolding record_and_notify
  process_answer_lem ctx msg d q i up free v known idx =
      let sid = ctx.session_id in
      let uid = ctx.user_id in
      let a = graded_at q (pos i) msg in
      rw (process_answer-known ctx msg d q (pos i) known idx) (
        Returns-bind (record_answer cache d.tracker sid uid a) _ _ _
          (record_answer_lem cache d.tracker sid uid q i a v known idx)
          (λ t h.
            rw (send_to_admin-online writes up sid (answer_notice uid) d.registry free)
              (h.0, refl)))

  -- A message to a session that has a quiz and no table panics.
  pub process_answer_no_table :
      (ctx : ConnectionContext) (msg : ClientMessage) (d : HandlerDeps C) (q : OngoingQuiz)
      → Dict.get d.tracker.tracker ctx.session_id ≡ some q
      → Dict.get d.tracker.answers ctx.session_id ≡ none
      → process_answer writes cache ctx msg d ≡ panics
  unfolding record_and_notify
  process_answer_no_table ctx msg d q known no_table =
      rw
        (
          process_answer-known ctx msg d q q.curr_question_idx known refl,
          record_answer_no_table cache d.tracker ctx.session_id ctx.user_id
              (graded_at q q.curr_question_idx msg) no_table,
        )
        refl

  -- A message to a session that has no quiz changes nothing.
  pub process_answer_unknown :
      (ctx : ConnectionContext) (msg : ClientMessage) (d : HandlerDeps C)
      → Dict.get d.tracker.tracker ctx.session_id ≡ none
      → process_answer writes cache ctx msg d ≡ done d
  unfolding process_answer answer_graded get_current_question get_correct_option_of
  process_answer_unknown ctx msg d none_there = ground arith

  -- A message before the first question panics: its answer goes to place -1 of the row.
  pub process_answer_before_start :
      (ctx : ConnectionContext) (msg : ClientMessage) (d : HandlerDeps C) (q : OngoingQuiz) (n : ℕ)
      → Dict.get d.tracker.tracker ctx.session_id ≡ some q
      → q.curr_question_idx ≡ negsuc n
      → process_answer writes cache ctx msg d ≡ panics
  unfolding record_and_notify
  process_answer_before_start ctx msg d q n known idx =
      rw
        (
          process_answer-known ctx msg d q (negsuc n) known idx,
          record_answer_before_start cache d.tracker ctx.session_id ctx.user_id q n
              (graded_at q (negsuc n) msg) known idx,
        )
        refl
