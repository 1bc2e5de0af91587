-- ===== src/RealTime/Game.antt =====
-- A whole game: every trigger of the next question that the consumer of a session gets, over
-- backend-go/real_time/rabbit/question.go.
use try_it.Prelude.{
  ℕ, zero, suc, ◌<◌, ◌≡◌, refl, sym, ap, subst, ◌∙◌, inl, inr, String, Bool, true, false, Option,
  some, List, [], ◌∷◌, ◌++◌, All, All-append, replicate, length, arith, Run, done, Returns,
  Returns-bind, Returns-mono, ◌>>=◌, Bool-cases, eq_refl,
}
use try_it.Prelude.Int.{ℤ, pos, negsuc, ◌+ℤ◌, ltb_ℤ, leb_ℤ, eq_ℤ}
use try_it.Prelude.Dict
use try_it.Prelude.Dict.{Dict, get-put}
use try_it.Shared.Name.{IsName}
use try_it.Shared.Errors.{Result, ok, err}
use try_it.Shared.Quiz.{OngoingQuiz, UserAnswer, Question, get_question, len}
use try_it.Shared.Scores.{SessionAnswers, BoardResponse, PopularAns}
use try_it.RealTime.Cache.{Cache}
use try_it.RealTime.Message.{
  ServerMessage, MessageType, bare, end, leaderboard, next_question, error, table,
}
use try_it.RealTime.Registry.{
  ConnectionContext, Attempt, ConnectionRegistry, is_admin, has_conn, send_to_admin,
  broadcast_to_session,
}
use try_it.RealTime.Registry.Delivery.{IsFree}
use try_it.RealTime.Registry.Broadcast.{receivers_of}
use try_it.RealTime.Registry.Online.{
  sent_to, logged, admins_of, players_of, OneAdmin, logged-logged, logged-nil,
  broadcast_to_session-online, send_to_admin-online,
}
use try_it.RealTime.Tracker.{
  QuizTracker, quiz_of, inc_from, inc_question_idx, get_current_question, get_quiz_len, get_answers,
}
use try_it.RealTime.Tracker.Valid.{IsValid, InRange, inc_question_idx-IsValid}
use try_it.RealTime.Tracker.Answers.{table_of}
use try_it.RealTime.Tracker.Progress.{advance}
use try_it.RealTime.Leaderboard.{HttpReply, get_results, get_leaderboard}
use try_it.RealTime.Responder.{
  correct_of, stat_message, question_message, send_next_question_ack, send_error, send_leaderboard,
  send_question_stat, send_question_payload,
}
use try_it.RealTime.Consumer.{
  HandlerDeps, answers_at, publish_board, board_step, question_step, question_started,
}
use try_it.RealTime.Rounds.{
  stats_to, send_question_stat-online, answers-RowsFit, answers_at_total, answers_to_total,
  board_question-suc,
}
use try_it.RealTime.Queues.{question_queue}
use try_it.RealTime.Queues.Routing.{split-question_queue}
use try_it.RealTime.Consuming.{question_loop}

abbrev is_end : MessageType → Bool
is_end end = true
is_end k = false

-- No message says that the game has ended.
abbrev pub Quiet : List Attempt → Type 0
Quiet xs = All (λ a. is_end a.message.kind ≡ false) xs

sent_to-Quiet :
    (m : ServerMessage) (cs : List ConnectionContext) → is_end m.kind ≡ false → Quiet (sent_to m cs)
sent_to-Quiet m [] h = tt
sent_to-Quiet m (c ∷ cs) h = elim (Bool-cases (has_conn c)) [
  | inl e ↦ rw e (h, sent_to-Quiet m cs h)
  | inr e ↦ rw e (sent_to-Quiet m cs h)
]

stats_to-Quiet :
    (popular : PopularAns) (answers : Dict UserAnswer) (cs : List ConnectionContext)
    → Quiet (stats_to popular answers cs)
unfolding stats_to stat_message
stats_to-Quiet popular answers [] = tt
stats_to-Quiet popular answers (c ∷ cs) =
    All-append _ _ (stats_to popular answers cs)
      (elim (Bool-cases (is_admin c)) [
        | inl e ↦ rw e tt
        | inr e ↦
            rw e (sent_to-Quiet (stat_message popular (correct_of answers c.user_id)) (c ∷ []) refl)
      ])
      (stats_to-Quiet popular answers cs)

-- The registry has some more writes in its trace, none of which says that the game has ended.
abbrev pub Adds : ConnectionRegistry → ConnectionRegistry → Type 0
Adds r r' = (xs : List Attempt) × (r' ≡ logged r xs) × Quiet xs

Adds-refl : (r : ConnectionRegistry) → Adds r r
Adds-refl r = ([], sym (logged-nil r), tt)

Adds-trans : (r r1 r2 : ConnectionRegistry) → Adds r r1 → Adds r1 r2 → Adds r r2
Adds-trans r r1 r2 (xs, e, qx) (ys, f, qy) = (
  xs ++ ys,
  f ∙ ap (λ (g : ConnectionRegistry). logged g ys) e ∙ logged-logged r xs ys,
  All-append _ xs ys qx qy,
)

module _ (writes : List Attempt → ConnectionContext → ServerMessage → Bool)
    (up : (log : List Attempt) (c : ConnectionContext) (m : ServerMessage) → writes log c m ≡ true)
    (sid : String) where
  -- A registry that the consumer sends from.
  abbrev pub IsReady : ConnectionRegistry → Type 0
  IsReady r = IsFree r × OneAdmin r sid

  Adds-IsReady : (r r' : ConnectionRegistry) → Adds r r' → IsReady r → IsReady r'
  Adds-IsReady r r' (xs, e, q) h = subst IsReady (sym e) h

  admin-Adds :
      (m : ServerMessage) (r : ConnectionRegistry)
      → IsReady r
      → is_end m.kind ≡ false
      → Returns (send_to_admin writes sid m r) (Adds r)
  admin-Adds m r h k =
      rw (send_to_admin-online writes up sid m r h.0)
        (sent_to m (admins_of r sid), refl, sent_to-Quiet m (admins_of r sid) k)

  players-Adds :
      (m : ServerMessage) (r : ConnectionRegistry)
      → IsReady r
      → is_end m.kind ≡ false
      → Returns (broadcast_to_session writes sid m false r) (Adds r)
  players-Adds m r h k =
      rw (broadcast_to_session-online writes up sid m r h.0 h.1)
        (sent_to m (players_of r sid), refl, sent_to-Quiet m (players_of r sid) k)

  -- Two steps that add to the trace.
  Adds-bind :
      (m : Run ConnectionRegistry) (f : ConnectionRegistry → Run ConnectionRegistry)
      (r : ConnectionRegistry)
      → IsReady r
      → Returns m (Adds r)
      → ((r1 : ConnectionRegistry) → IsReady r1 → Returns (f r1) (Adds r1))
      → Returns (m >>= f) (Adds r)
  Adds-bind m f r h first second = Returns-bind m f (Adds r) (Adds r) first (λ r1 a.
      Returns-mono (f r1) (Adds r1) (Adds r) (second r1 (Adds-IsReady r r1 a h))
        (λ r2 b. Adds-trans r r1 r2 a b))

  stat-Adds :
      (popular : PopularAns) (answers : Dict UserAnswer) (r : ConnectionRegistry)
      → IsReady r
      → Returns (send_question_stat writes sid popular answers r) (Adds r)
  stat-Adds popular answers r h =
      rw (send_question_stat-online writes up sid popular answers r h.0) (
        stats_to popular answers (receivers_of r sid),
        refl,
        stats_to-Quiet popular answers (receivers_of r sid),
      )

  module _ (post : SessionAnswers → HttpReply) {C : Type 0} (cache : Cache C)
      (t : QuizTracker C) where
    publish_board-Adds :
        (qid : ℤ) (res : Result BoardResponse) (answers : Dict UserAnswer) (r : ConnectionRegistry)
        → IsReady r
        → answers_at (qid +ℤ negsuc 0) (get_answers t sid) ≡ done answers
        → Returns (publish_board writes post cache sid sid qid t res r) (Adds r)
    unfolding publish_board send_error send_leaderboard
    publish_board-Adds qid (err e) answers r h given = players-Adds (bare error) r h refl
    publish_board-Adds qid (ok board) answers r h given =
        Adds-bind _ _ r h
          (admin-Adds (record (bare leaderboard) { payload = table board.table }) r h refl)
          (λ r1 h1. rw given (stat-Adds board.popular answers r1 h1))

    question_step-Adds :
        (qid amount : ℤ) (q : Question) (r : ConnectionRegistry)
        → IsReady r
        → Returns (question_step writes post cache sid qid amount (some q) r) (Adds r)
    unfolding question_step send_question_payload send_next_question_ack question_message
    question_step-Adds qid amount q r h =
        Adds-bind _ _ r h (admin-Adds (question_message (qid +ℤ pos 1) amount q) r h refl) (λ r1 h1.
          elim (Bool-cases (eq_ℤ qid (pos 0))) [
            | inl e ↦ rw e (players-Adds (bare next_question) r1 h1 refl)
            | inr e ↦ rw e (Adds-refl r1)
          ])

    module _ (q : OngoingQuiz) (known : Dict.get t.tracker sid ≡ some q) (v : IsValid t) where
      question_now :
          get_current_question t sid
          ≡ (q.curr_question_idx, some (get_question q.quiz_data q.curr_question_idx))
      unfolding get_current_question
      question_now = rw (known, get_current_question) refl

      len_now : get_quiz_len t sid ≡ len q.quiz_data
      unfolding get_quiz_len
      len_now = rw known refl

      -- The board of the question before can be asked for.
      get_leaderboard_total :
          (j : ℕ)
          → q.curr_question_idx ≡ pos (suc j)
          → j < len q.quiz_data
          → (res : Result BoardResponse) × (get_leaderboard post t sid ≡ done res)
      unfolding get_leaderboard
      get_leaderboard_total j idx more =
          let (given, e) =
            answers_to_total (len q.quiz_data) j (get_answers t sid)
              (answers-RowsFit t sid q v known) more in
          let now : (get_current_question t sid).1
              ≡ some (get_question q.quiz_data q.curr_question_idx) =
            ap (λ (p : ℤ × Option Question). p.1) question_now in
          let here : (quiz_of t sid).curr_question_idx ≡ pos (suc j) = rw known idx in
          (
            get_results post sid given
                (pos (length (get_question q.quiz_data q.curr_question_idx).options)),
            rw (here, board_question-suc j, e, now) refl,
          )

      board_step-Adds :
          (r : ConnectionRegistry)
          → IsReady r
          → InRange q.curr_question_idx (len q.quiz_data)
          → (i : ℤ) → q.curr_question_idx ≡ i
          → Returns (board_step writes post cache sid sid i t r) (Adds r)
      unfolding board_step
      board_step-Adds r h range (negsuc k) idx =
          let asked : ltb_ℤ (pos 0) (negsuc k) ≡ false = ground arith in rw asked (Adds-refl r)
      board_step-Adds r h range (pos zero) idx = Adds-refl r
      board_step-Adds r h range (pos (suc j)) idx =
          let asked : ltb_ℤ (pos 0) (pos (suc j)) ≡ true = ground arith in
          let before : pos (suc j) +ℤ negsuc 0 ≡ pos j = ground arith in
          let more : j < len q.quiz_data = ground (arith, range, idx) in
          let (res, board) = get_leaderboard_total j idx more in
          let (answers, given) =
            answers_at_total (len q.quiz_data) j (get_answers t sid)
              (answers-RowsFit t sid q v known) more in
          rw (asked, board) (publish_board-Adds (pos (suc j)) res answers r h (rw before given))

      -- The round behind the move of the index, whatever the index is.
      round-Adds :
          (r : ConnectionRegistry)
          → IsReady r
          → InRange q.curr_question_idx (len q.quiz_data)
          → Returns
              (board_step writes post cache sid sid q.curr_question_idx t r >>= λ r1.
                question_step writes post cache sid q.curr_question_idx
                  (pos (len q.quiz_data))
                  (some (get_question q.quiz_data q.curr_question_idx))
                  r1)
              (Adds r)
      round-Adds r h range =
          Adds-bind _ _ r h (board_step-Adds r h range q.curr_question_idx refl) (λ r1 h1.
            question_step-Adds q.curr_question_idx (pos (len q.quiz_data))
              (get_question q.quiz_data q.curr_question_idx) r1 h1)

not_over : (i : ℤ) (n : ℕ) → InRange i n → eq_ℤ i (pos n) ≡ false
not_over (pos i) n h = ground (arith, h)
not_over (negsuc k) n h = ground (arith, h)

module _ (writes : List Attempt → ConnectionContext → ServerMessage → Bool)
    (up : (log : List Attempt) (c : ConnectionContext) (m : ServerMessage) → writes log c m ≡ true)
    (post : SessionAnswers → HttpReply) {C : Type 0} (cache : Cache C) (sid : String) where
  -- What some triggers did: `t` is the tracker after them.
  pub record Played (t : QuizTracker C) (d d' : HandlerDeps C) : Type 0 where
    pub moved : d'.tracker ≡ t
    pub sent : Adds d.registry d'.registry

  -- One trigger, from a valid tracker.
  question_started-Played :
      (d : HandlerDeps C) (q : OngoingQuiz)
      → IsReady writes up sid d.registry
      → IsValid (inc_question_idx cache d.tracker sid).1
      → Dict.get (inc_question_idx cache d.tracker sid).1.tracker sid ≡ some q
      → Returns
          (question_started writes post cache sid ("question" ∷ sid ∷ "start" ∷ []) d)
          (Played (inc_question_idx cache d.tracker sid).1 d)
  unfolding question_started
  question_started-Played d q h v known =
      let t = (inc_question_idx cache d.tracker sid).1 in
      let range = (table_of t sid "" q v known).2 in
      let on = not_over q.curr_question_idx (len q.quiz_data) range in
      rw (question_now writes up sid post cache t q known v, question_started)
        (rw (len_now writes up sid post cache t q known v, on)
          (Returns-bind _ _ (Adds d.registry) _
            (round-Adds writes up sid post cache t q known v d.registry h range)
            (λ r a. record { moved = refl; sent = a })))

  -- A session keeps a quiz.
  inc-known :
      (t : QuizTracker C) (q : OngoingQuiz)
      → Dict.get t.tracker sid ≡ some q
      → (q' : OngoingQuiz) × (Dict.get (inc_question_idx cache t sid).1.tracker sid ≡ some q')
  unfolding inc_question_idx inc_from
  inc-known t q known =
      let next : ℤ = q.curr_question_idx +ℤ pos 1 in
      let e : inc_question_idx cache t sid ≡ inc_from cache t sid q =
        rw (known, inc_question_idx) refl in
      elim (Bool-cases (leb_ℤ (pos (len q.quiz_data)) next)) [
        | inl last ↦ (q, rw (e, last, inc_from) known)
        | inr moves ↦ (
          record q { curr_question_idx = next },
          rw (e, moves, inc_from) (rw (get-put, eq_refl) refl),
        )
      ]

  advance-shift :
      (n : ℕ) (t : QuizTracker C)
      → advance cache n (inc_question_idx cache t sid).1 sid ≡ advance cache (suc n) t sid
  unfolding advance
  advance-shift zero t = refl
  advance-shift (suc n) t =
      ap (λ (u : QuizTracker C). (inc_question_idx cache u sid).1) (advance-shift n t)

  -- The consumer of a session whose id is a name, from a valid tracker that has a quiz for it, with a
  -- free lock, one admin at most and a network that takes every write: however many triggers the
  -- session service publishes, one after the other, the consumer goes through all of them without
  -- a panic and without waiting for ever; the tracker is the one after as many moves of the index;
  -- and though the index stops at the last question, no message ever says that the game has ended.
  pub question_loop_lem :
      (n : ℕ) (d : HandlerDeps C) (q : OngoingQuiz)
      → IsName sid
      → IsReady writes up sid d.registry
      → IsValid d.tracker
      → Dict.get d.tracker.tracker sid ≡ some q
      → Returns
          (question_loop writes post cache sid (replicate n (question_queue sid)) d)
          (Played (advance cache n d.tracker sid) d)
  unfolding question_loop advance
  question_loop_lem zero d q name h v known = record { moved = refl; sent = Adds-refl d.registry }
  question_loop_lem (suc n) d q name h v known =
      let t = (inc_question_idx cache d.tracker sid).1 in
      let v1 = inc_question_idx-IsValid cache d.tracker sid v in
      let (q1, known1) = inc-known d.tracker q known in
      rw (split-question_queue sid name) (
        Returns-bind (question_started writes post cache sid ("question" ∷ sid ∷ "start" ∷ []) d)
          (question_loop writes post cache sid (replicate n (question_queue sid))) (Played t d)
          (Played (advance cache (suc n) d.tracker sid) d)
          (question_started-Played d q1 h v1 known1)
          (λ d1 p.
            let h1 = Adds-IsReady writes up sid d.registry d1.registry p.sent h in
            Returns-mono (question_loop writes post cache sid (replicate n (question_queue sid)) d1)
              (Played (advance cache n d1.tracker sid) d1)
              (Played (advance cache (suc n) d.tracker sid) d)
              (question_loop_lem n d1 q1 name h1 (subst IsValid (sym p.moved) v1)
                (ap (λ (u : QuizTracker C). Dict.get u.tracker sid) p.moved ∙ known1))
              (λ d2 p2. record {
                moved =
                    p2.moved
                    ∙ ap (λ (u : QuizTracker C). advance cache n u sid) p.moved
                    ∙ advance-shift n d.tracker;
                sent = Adds-trans d.registry d1.registry d2.registry p.sent p2.sent;
              })))
