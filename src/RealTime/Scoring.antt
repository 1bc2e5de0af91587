-- ===== src/RealTime/Scoring.antt =====
-- An answer on its way to the leaderboard service: it is written for the question that is on, and it
-- is in the batch that is asked for once the next question begins.
use mathlib.Core.List.{Memᴰ}
use try_it.Prelude.{
  ℕ, ◌<◌, ◌≡◌, refl, inl, inr, String, Bool, true, some, List, [], ◌∷◌, length-set, get_elem?, set,
  get_elem?-lt, get_elem?-set_self, arith, done, Returns, Returns-mono, Returns-bind, ◌>>=◌,
  Bool-cases, eq_iff, eq_refl, ◌==◌,
}
use try_it.Prelude.Int.{pos}
use try_it.Prelude.Dict
use try_it.Prelude.Dict.{Dict}
use try_it.Shared.Quiz.{OngoingQuiz, UserAnswer, len}
use try_it.RealTime.Tracker.{get_answers}
use try_it.RealTime.Tracker.Valid.{IsValid, RowsFit, get-RowsFit}
use try_it.RealTime.Leaderboard.{to_answer, answers_to}
use try_it.RealTime.Cache.{Cache}
use try_it.RealTime.Message.{ServerMessage, ClientMessage}
use try_it.RealTime.Registry.{ConnectionContext, Attempt}
use try_it.RealTime.Registry.Delivery.{IsFree}
use try_it.RealTime.Tracker.Answers.{row_of, row_or_blank, table_of}
use try_it.RealTime.Consumer.{HandlerDeps}
use try_it.RealTime.Handler.{process_answer}
use try_it.RealTime.Answering.{graded_at, process_answer_lem}
use try_it.RealTime.Rounds.{answers_to_total, answers-RowsFit}

-- One user more at the front of the table.
module _ (i : ℕ) (u : String) (row : List UserAnswer) (users : Dict (List UserAnswer))
    (a0 : UserAnswer) (here : get_elem? row i ≡ some a0) where
  answers_to-cons :
      answers_to (pos i) ((u, row) ∷ users)
      ≡ (answers_to (pos i) users >>= λ more. done (to_answer u a0 ∷ more))
  unfolding answers_to
  answers_to-cons = rw here refl

-- The answer that a user's row has at place `i` is in the batch for question `i`.
answers_to-Mem :
    (n i : ℕ) (users : Dict (List UserAnswer)) (uid : String) (row : List UserAnswer)
    (a : UserAnswer)
    → RowsFit n users
    → i < n
    → Dict.get users uid ≡ some row
    → get_elem? row i ≡ some a
    → Returns (answers_to (pos i) users) (λ answers. Memᴰ (to_answer uid a) answers)
unfolding Dict.get
answers_to-Mem n i [] uid row a fit h found place = absurd (ground arith)
answers_to-Mem n i ((u, row') ∷ users) uid row a fit h found place =
    let (a0, here) = get_elem?-lt row' i (omega (arith, fit.0)) in
    rw (answers_to-cons i u row' users a0 here) (elim (Bool-cases (u == uid)) [
      | inl e ↦
          let name : u ≡ uid = ground (arith, eq_iff u uid) in
          let rows : some row' ≡ some row = rw e at found in
          let same : a0 ≡ a = cc in
          let (more, rest) = answers_to_total n i users fit.1 h in
          rw rest (Memᴰ.head (rw (name, same) refl))
      | inr e ↦
          Returns-bind (answers_to (pos i) users) _ (λ answers. Memᴰ (to_answer uid a) answers)
            (λ answers. Memᴰ (to_answer uid a) answers)
            (answers_to-Mem n i users uid row a fit.1 h (rw e at found) place)
            (λ more m. Memᴰ.tail m)
    ])

module _ (writes : List Attempt → ConnectionContext → ServerMessage → Bool)
    (up : (log : List Attempt) (c : ConnectionContext) (m : ServerMessage) → writes log c m ≡ true)
    {C : Type 0} (cache : Cache C) where
  -- A participant's message to question `i`, with a valid tracker, a free lock and a network that
  -- takes every write, is scored: in the tracker after it, the batch of answers to question `i` that
  -- the leaderboard service is asked for can be made, and it has this participant's graded answer.
  pub answer_scored :
      (ctx : ConnectionContext) (msg : ClientMessage) (d : HandlerDeps C) (q : OngoingQuiz) (i : ℕ)
      → IsFree d.registry
      → IsValid d.tracker
      → Dict.get d.tracker.tracker ctx.session_id ≡ some q
      → q.curr_question_idx ≡ pos i
      → Returns (process_answer writes cache ctx msg d) (λ d'.
        Returns
          (answers_to (pos i) (get_answers d'.tracker ctx.session_id))
          (λ answers. Memᴰ (to_answer ctx.user_id (graded_at q (pos i) msg)) answers))
  unfolding get_answers
  answer_scored ctx msg d q i free v known idx =
      Returns-mono (process_answer writes cache ctx msg d) _
        (λ d'.
          Returns (answers_to (pos i) (get_answers d'.tracker ctx.session_id))
            (λ answers. Memᴰ (to_answer ctx.user_id (graded_at q (pos i) msg)) answers))
        (process_answer_lem writes cache ctx msg d q i up free v known idx)
        (λ d' (w, notice).
          let sid = ctx.session_id in
          let uid = ctx.user_id in
          let a = graded_at q (pos i) msg in
          let row = set (row_or_blank d.tracker sid uid) i a in
          let known' : Dict.get d'.tracker.tracker sid ≡ some q = rw w.same_quizzes known in
          let fit = answers-RowsFit d'.tracker sid q w.valid known' in
          let found : row_of d'.tracker sid uid ≡ some row = rw (w.rows sid uid) (simp eq_refl) in
          let range : i < len q.quiz_data = rw idx at (table_of d.tracker sid uid q v known).2 in
          answers_to-Mem (len q.quiz_data) i (get_answers d'.tracker sid) uid row a fit range found
            (get_elem?-set_self (row_or_blank d.tracker sid uid) i a (
              omega (
                arith,
                range,
                length-set (row_or_blank d.tracker sid uid) i a,
                get-RowsFit (len q.quiz_data) (get_answers d'.tracker sid) uid row fit found,
              ))))
