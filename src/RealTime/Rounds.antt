-- ===== src/RealTime/Rounds.antt =====
-- What a delivery of "next question" does, while the network takes every write: the whole trace of
-- messages of the first question, of a later one, and of one behind a failed board.
use mathlib.Core.List.{append_assoc}
use try_it.Prelude.{
  ℕ, suc, ◌<◌, ◌≡◌, refl, ap, sym, ◌∙◌, String, Bool, true, false, Option, none, some, List, [],
  ◌∷◌, ◌++◌, length, arith, get_elem?-lt, done, ◌>>=◌, Bool-cases, inl, inr, ltb, if◌then◌else◌,
}
use try_it.Prelude.Int.{pos, ◌+ℤ◌, eq_ℤ, ltb_ℤ, sub_ℕ}
use try_it.Prelude.Dict
use try_it.Prelude.Dict.{Dict}
use try_it.Shared.Errors.{Result, ok, err}
use try_it.Shared.Quiz.{OngoingQuiz, UserAnswer, get_question, len}
use try_it.Shared.Scores.{Answer, SessionAnswers, BoardResponse, PopularAns}
use try_it.RealTime.Cache.{Cache}
use try_it.RealTime.Message.{ServerMessage, bare, next_question, leaderboard, error, table}
use try_it.RealTime.Registry.{ConnectionContext, Attempt, ConnectionRegistry, is_admin}
use try_it.RealTime.Registry.Delivery.{IsFree}
use try_it.RealTime.Registry.Broadcast.{receivers_of, reread, get_connections_lem}
use try_it.RealTime.Registry.Online.{
  sent_to, logged, admins_of, players_of, OneAdmin, logged-logged, logged-nil, reread-eq,
  send_message-online, broadcast_to_session-online, send_to_admin-online,
}
use try_it.RealTime.Tracker.{
  QuizTracker, quiz_of, or_nil, inc_question_idx, get_current_question, get_quiz_len, get_answers,
}
use try_it.RealTime.Tracker.Valid.{IsValid, RowsFit, Agree}
use try_it.RealTime.Tracker.Progress.{inc_question_idx_lem}
use try_it.RealTime.Leaderboard.{
  HttpReply, to_answer, answers_to, board_question, get_results, get_leaderboard,
}
use try_it.RealTime.Responder.{
  correct_of, stat_message, question_message, send_next_question_ack, send_stats,
  send_question_stat, send_question_payload,
}
use try_it.RealTime.Consumer.{HandlerDeps, answers_at, board_step, question_step, question_started}

-- The statistics that go to the players: the shared counts, and whether the player's own answer was
-- right.
unfoldable pub stats_to : PopularAns → Dict UserAnswer → List ConnectionContext → List Attempt
stats_to popular answers [] = []
stats_to popular answers (c ∷ cs) =
    (if is_admin c
      then []
      else sent_to (stat_message popular (correct_of answers c.user_id)) (c ∷ []))
    ++ stats_to popular answers cs

module _ (writes : List Attempt → ConnectionContext → ServerMessage → Bool)
    (up : (log : List Attempt) (c : ConnectionContext) (m : ServerMessage)
      → writes log c m ≡ true) where
  send_stats-online :
      (popular : PopularAns) (answers : Dict UserAnswer) (cs : List ConnectionContext)
      (r : ConnectionRegistry)
      → send_stats writes popular answers cs r ≡ done (logged r (stats_to popular answers cs))
  unfolding send_stats stats_to
  send_stats-online popular answers [] r = ap done (sym (logged-nil r))
  send_stats-online popular answers (c ∷ cs) r = elim (Bool-cases (is_admin c)) [
    | inl skip ↦ rw skip (send_stats-online popular answers cs r)
    | inr player ↦
        let m = stat_message popular (correct_of answers c.user_id) in
        rw player (
          rw
            (
              send_message-online writes up m (c ∷ []) r,
              send_stats-online popular answers cs (logged r (sent_to m (c ∷ []))),
            )
            (ap done (logged-logged r (sent_to m (c ∷ [])) (stats_to popular answers cs))))
  ]

  pub send_question_stat-online :
      (sid : String) (popular : PopularAns) (answers : Dict UserAnswer) (r : ConnectionRegistry)
      → IsFree r
      → send_question_stat writes sid popular answers r
        ≡ done (logged r (stats_to popular answers (receivers_of r sid)))
  unfolding send_question_stat
  send_question_stat-online sid popular answers r h =
      rw
        (
          get_connections_lem sid r h,
          send_stats-online popular answers (receivers_of r sid) (reread r),
        )
        (ap
          (λ (x : ConnectionRegistry).
            done (logged x (stats_to popular answers (receivers_of r sid))))
          (reread-eq r))

-- What the round of question `suc j` sends for a board, or for the error in its place.
abbrev pub board_trace :
    ConnectionRegistry → String → Result BoardResponse → Dict UserAnswer → List Attempt
board_trace r sid (err e) answers = sent_to (bare error) (players_of r sid)
board_trace r sid (ok board) answers =
    sent_to (record (bare leaderboard) { payload = table board.table }) (admins_of r sid)
    ++ stats_to board.popular answers (receivers_of r sid)

pub board_question-suc : (j : ℕ) → board_question (pos (suc j)) ≡ pos j
unfolding board_question
board_question-suc j = ground arith

-- The rows of a session of a valid tracker are full.
pub answers-RowsFit :
    {C : Type 0} (t : QuizTracker C) (sid : String) (q : OngoingQuiz)
    → IsValid t
    → Dict.get t.tracker sid ≡ some q
    → RowsFit (len q.quiz_data) (get_answers t sid)
unfolding get_answers
answers-RowsFit t sid q v known = fit (Dict.get t.answers sid) (rw known at (v.agree sid))
  where
    fit :
        (o : Option (Dict (List UserAnswer)))
        → Agree (some q) o
        → RowsFit (len q.quiz_data) (or_nil o)
    fit none a = absurd a
    fit (some users) a = a.1

-- In a table whose rows are full every question has an answer of everybody.
pub answers_at_total :
    (n j : ℕ) (users : Dict (List UserAnswer))
    → RowsFit n users
    → j < n
    → (answers : Dict UserAnswer) × (answers_at (pos j) users ≡ done answers)
unfolding answers_at
answers_at_total n j [] fit h = ([], refl)
answers_at_total n j ((u, row) ∷ users) fit h =
    let (a, here) = get_elem?-lt row j (omega (arith, fit.0)) in
    let (rest, e) = answers_at_total n j users fit.1 h in ((u, a) ∷ rest, rw (here, e))

pub answers_to_total :
    (n j : ℕ) (users : Dict (List UserAnswer))
    → RowsFit n users
    → j < n
    → (answers : List Answer) × (answers_to (pos j) users ≡ done answers)
unfolding answers_to
answers_to_total n j [] fit h = ([], refl)
answers_to_total n j ((u, row) ∷ users) fit h =
    let (a, here) = get_elem?-lt row j (omega (arith, fit.0)) in
    let (rest, e) = answers_to_total n j users fit.1 h in (to_answer u a ∷ rest, rw (here, e))

module _ (writes : List Attempt → ConnectionContext → ServerMessage → Bool)
    (up : (log : List Attempt) (c : ConnectionContext) (m : ServerMessage) → writes log c m ≡ true)
    (post : SessionAnswers → HttpReply) {C : Type 0} (cache : Cache C) (d : HandlerDeps C)
    (sid : String) (q : OngoingQuiz) (i : ℕ) (free : IsFree d.registry)
    (one : OneAdmin d.registry sid) (known : Dict.get d.tracker.tracker sid ≡ some q)
    (at : q.curr_question_idx ≡ sub_ℕ i 1) (more : i < len q.quiz_data) where
  after : QuizTracker C
  after = (inc_question_idx cache d.tracker sid).1

  after_known : Dict.get after.tracker sid ≡ some (record q { curr_question_idx = pos i })
  unfolding after
  after_known =
      let moved : ltb i (len q.quiz_data) ≡ true = ground arith in
      rw moved at (inc_question_idx_lem cache d.tracker sid q i known at).1

  question_now : get_current_question after sid ≡ (pos i, some (get_question q.quiz_data (pos i)))
  unfolding get_current_question
  question_now = rw (after_known, get_current_question)

  len_now : get_quiz_len after sid ≡ len q.quiz_data
  unfolding get_quiz_len
  len_now = rw after_known

  -- The round behind the move of the index.
  round : question_started writes post cache sid ("question" ∷ sid ∷ "start" ∷ []) d ≡ (
      (board_step writes post cache sid sid (pos i) after d.registry >>= λ r1.
      question_step writes post cache sid
        (pos i)
        (pos (len q.quiz_data))
        (some (get_question q.quiz_data (pos i)))
        r1)
      >>= λ r. done (record { tracker = after; registry = r }))
  unfolding question_started after
  round =
      let on : eq_ℤ (pos i) (pos (len q.quiz_data)) ≡ false = ground arith in
      rw (question_now, question_started) (rw (len_now, on))

  payload_sent :
      (r : ConnectionRegistry)
      → IsFree r
      → send_question_payload writes sid
          (pos i +ℤ pos 1)
          (pos (len q.quiz_data))
          (get_question q.quiz_data (pos i))
          r
        ≡ done (
            logged r (
              sent_to
                (question_message
                  (pos i +ℤ pos 1)
                  (pos (len q.quiz_data))
                  (get_question q.quiz_data (pos i)))
                (admins_of r sid)))
  unfolding send_question_payload
  payload_sent r h = send_to_admin-online writes up sid _ r h

  abbrev pub payload : ServerMessage
  payload =
      question_message (pos i +ℤ pos 1) (pos (len q.quiz_data)) (get_question q.quiz_data (pos i))

  ack_sent :
      (r : ConnectionRegistry)
      → IsFree r
      → OneAdmin r sid
      → send_next_question_ack writes sid r
        ≡ done (logged r (sent_to (bare next_question) (players_of r sid)))
  unfolding send_next_question_ack
  ack_sent r h o = broadcast_to_session-online writes up sid (bare next_question) r h o

  -- The first question of a session: the admins get the question, with number 1 and the number of
  -- questions, and then the players the signal to go on. No board is asked for.
  pub first_question_lem :
      i ≡ 0
      → question_started writes post cache sid ("question" ∷ sid ∷ "start" ∷ []) d
        ≡ done (record {
          tracker = (inc_question_idx cache d.tracker sid).1;
          registry = logged d.registry (
              sent_to payload (admins_of d.registry sid)
              ++ sent_to (bare next_question) (players_of d.registry sid));
        })
  unfolding question_step board_step after
  first_question_lem e =
      let asked : ltb_ℤ (pos 0) (pos i) ≡ false = ground arith in
      let first : eq_ℤ (pos i) (pos 0) ≡ true = ground arith in
      round
      ∙ rw (asked, payload_sent d.registry free)
          (rw
            (
              first,
              ack_sent (logged d.registry (sent_to payload (admins_of d.registry sid))) free one,
            )
            (rw append_assoc))

  answers_now : get_answers after sid ≡ get_answers d.tracker sid
  unfolding get_answers after
  answers_now =
      ap (λ (m : Dict (Dict (List UserAnswer))). or_nil (Dict.get m sid))
        (inc_question_idx_lem cache d.tracker sid q i known at).2

  -- The board that question `suc j` asks for is that of question `j`, over the rows of all users,
  -- with the number of options of question `suc j`.
  pub get_leaderboard-round :
      (j : ℕ)
      → i ≡ suc j
      → get_leaderboard post (inc_question_idx cache d.tracker sid).1 sid ≡ (
          answers_to (pos j) (get_answers d.tracker sid) >>= λ answers. done (
            get_results post sid answers
              (pos (length (get_question q.quiz_data (pos (suc j))).options))))
  unfolding get_leaderboard after
  get_leaderboard-round j later =
      let here : (quiz_of after sid).curr_question_idx ≡ pos (suc j) =
        rw after_known (ap pos later) in
      let asked : (get_current_question after sid).1
          ≡ some (get_question q.quiz_data (pos (suc j))) =
        rw (question_now, later) in
      rw (here, board_question-suc j, answers_now, asked)
