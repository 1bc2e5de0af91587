-- ===== src/LeaderBoard/Compute.antt =====
-- `ComputeLeaderBoard` as a whole, and the reply of `ComputeBoardHandler`.
use try_it.Prelude.{
  ◌≡◌, refl, String, none, some, List, [], ◌∷◌, map, done, panics, Returns, Returns-bind,
  Returns-mono,
}
use mathlib.Core.List.{Perm}
use try_it.Prelude.Int.{ℤ}
use try_it.Prelude.Text.{join}
use try_it.Shared.Errors.{Result, ok, err, ErrorOr}
use try_it.Shared.Scores.{Answer, SessionAnswers, UserCurrentPoint, ScoreTable}
use try_it.LeaderBoard.{
  Float64, SortedSets, get_earliest_timestamp, user_point, user_score, add_scores_batch,
  load_leaderboard, table_of_loaded, compute_leader_board,
}
use try_it.LeaderBoard.Earliest.{IsEarliest, get_earliest_timestamp_lem}
use try_it.LeaderBoard.Sorting.{IsDescending, sort_user_scores_by_score_desc_lem}

module _ {F S : Type 0} (float : Float64 F) (sets : SortedSets S F) where
  open float use {of_int}
  open sets use {incr_batch, rev_range}

  -- The increments of one question, in the order of the answers.
  abbrev pub increments : ℤ → List Answer → List (String × F)
  increments best given =
      map (λ (u : UserCurrentPoint). (u.user_id, of_int u.score))
        (map (user_point float best) given)

  -- The batch of a question from time `best`, and its result.
  abbrev pub batch : S → SessionAnswers → ℤ → S × ErrorOr
  batch s ans best =
      incr_batch s (join "leaderboard:" ans.session_code) (increments best ans.answers)

  -- What the service answers once the batch is sent: the error of the batch or of the read, or the
  -- scores that the store gives, sorted.
  abbrev pub IsComputed :
      S → SessionAnswers → ErrorOr → Result (List (String × F)) → Result ScoreTable → Type 0
  IsComputed s ans (some e) zs res = res ≡ err e
  IsComputed s ans none (err e) res = res ≡ err e
  IsComputed s ans none (ok zs) res =
      (table : ScoreTable) × (res ≡ ok table)
      × (table.session_code ≡ ans.session_code)
      × Perm (map (user_score float) zs) table.users
      × IsDescending table.users

  abbrev pub IsResult : S → SessionAnswers → ℤ → S × Result ScoreTable → Type 0
  IsResult s ans best r =
      (r.0 ≡ (batch s ans best).0)
      × IsComputed s ans (batch s ans best).1 (rev_range r.0 (join "leaderboard:" ans.session_code))
          r.1

  abbrev pub IsOutcome : S → SessionAnswers → S × Result ScoreTable → Type 0
  IsOutcome s ans r = (best : ℤ) × IsEarliest best ans.answers × IsResult s ans best r

  table_lem :
      (s : S) (ans : SessionAnswers) (zs : Result (List (String × F)))
      → IsComputed s ans none zs (
          table_of_loaded float sets ans.session_code
            (elim zs [ err e ↦ err e | ok zs ↦ ok (map (user_score float) zs) ]))
  table_lem s ans (err e) = refl
  table_lem s ans (ok zs) =
      let (same, sorted) = sort_user_scores_by_score_desc_lem (map (user_score float) zs) in
      (_, refl, refl, same, sorted)

  -- The two ends of the function, after the batch.
  finish_lem :
      (s s1 : S) (ans : SessionAnswers) (failed : ErrorOr)
      → Returns
          (elim failed [
            | some e ↦ done (s1, err e)
            | none ↦ done (
              s1,
              table_of_loaded float sets ans.session_code
                  (load_leaderboard float sets s1 ans.session_code),
            )
          ])
          (λ (r : S × Result ScoreTable).
            (r.0 ≡ s1)
            × IsComputed s ans failed (rev_range r.0 (join "leaderboard:" ans.session_code)) r.1)
  unfolding load_leaderboard
  finish_lem s s1 ans (some e) = (refl, refl)
  finish_lem s s1 ans none =
      (refl, table_lem s ans (rev_range s1 (join "leaderboard:" ans.session_code)))

  -- For a question with an answer the service sends one batch of increments, the points of every
  -- answer counted from the earliest, and gives the error of the batch or of the read, or the
  -- stored scores as a table sorted from the highest; with no answer at all it panics.
  pub compute_leader_board_lem :
      (s : S) (code : String) (n : ℤ) (a : Answer) (rest : List Answer)
      → (let ans : SessionAnswers = record {
        session_code = code;
        options_amount = n;
        answers = a ∷ rest;
      } in
          Returns (compute_leader_board float sets s ans) (IsOutcome s ans))
        × (compute_leader_board float sets s
              (record { session_code = code; options_amount = n; answers = [] })
            ≡ panics)
  unfolding compute_leader_board add_scores_batch get_earliest_timestamp
  compute_leader_board_lem s code n a rest =
      let ans : SessionAnswers = record {
        session_code = code;
        options_amount = n;
        answers = a ∷ rest;
      } in
      (
        Returns-bind (get_earliest_timestamp (a ∷ rest)) _ (λ best. IsEarliest best (a ∷ rest))
            (IsOutcome s ans) (get_earliest_timestamp_lem a rest).0
            (λ best earliest.
              Returns-mono _ (IsResult s ans best) (IsOutcome s ans)
                (finish_lem s (batch s ans best).0 ans (batch s ans best).1)
                (λ r h. (best, earliest, h))),
        refl,
      )
